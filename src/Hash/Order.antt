-- ===== src/Hash/Order.antt =====
-- consistenthash.go: the order of the keys, and the key that Get finds for a hash.
use fastgozero.Prelude.{
  ℕ, suc, ◌%◌, ◌≤◌, ◌<◌, ◌≡◌, refl, ◌⊎◌, inl, inr, Bool, true, false, ◌||◌, List, [], ◌∷◌, ◌++◌,
  ◌==◌, leb, ltb, leb→le, ltb→lt, length, get_or, Bool-cases, arith,
}
use fastgozero.Hash.{insert_key, sort_keys, search_keys}

unfoldable pub has : ℕ → List ℕ → Bool
has k [] = false
has k (j ∷ js) = (j == k) || has k js

abbrev pub AllGe : ℕ → List ℕ → Type 0
AllGe k [] = Unit {0}
AllGe k (j ∷ js) = (k ≤ j) × AllGe k js

abbrev pub IsSorted : List ℕ → Type 0
IsSorted [] = Unit {0}
IsSorted (k ∷ ks) = AllGe k ks × IsSorted ks

pub AllGe-has : (k j : ℕ) (ks : List ℕ) → AllGe k ks → has j ks ≡ true → k ≤ j
unfolding has
AllGe-has k j [] h e = cc
AllGe-has k j (i ∷ ks) h e = ground (arith, AllGe-has k j ks)

AllGe-mono : (k j : ℕ) (ks : List ℕ) → k ≤ j → AllGe j ks → AllGe k ks
AllGe-mono k j [] h a = tt
AllGe-mono k j (i ∷ ks) h a = (omega arith, AllGe-mono k j ks h a.1)

AllGe-insert_key : (k j : ℕ) (ks : List ℕ) → k ≤ j → AllGe k ks → AllGe k (insert_key j ks)
unfolding insert_key
AllGe-insert_key k j [] h a = (h, tt)
AllGe-insert_key k j (i ∷ ks) h a = elim (Bool-cases (leb j i)) [
  | inl low ↦ rw low (h, a)
  | inr high ↦ rw high (a.0, AllGe-insert_key k j ks h a.1)
]

insert_key-IsSorted : (k : ℕ) (ks : List ℕ) → IsSorted ks → IsSorted (insert_key k ks)
unfolding insert_key
insert_key-IsSorted k [] s = (tt, tt)
insert_key-IsSorted k (j ∷ ks) s = elim (Bool-cases (leb k j)) [
  | inl low ↦ let h = leb→le k j low in rw low ((h, AllGe-mono k j ks h s.0), s)
  | inr high ↦
      let h : j ≤ k = ground arith in
      rw high (AllGe-insert_key j k ks h s.0, insert_key-IsSorted k ks s.1)
]

pub sort_keys-IsSorted : (ks : List ℕ) → IsSorted (sort_keys ks)
unfolding sort_keys
sort_keys-IsSorted [] = tt
sort_keys-IsSorted (k ∷ ks) = insert_key-IsSorted k (sort_keys ks) (sort_keys-IsSorted ks)

has-insert_key : (j k : ℕ) (ks : List ℕ) → has j (insert_key k ks) ≡ ((k == j) || has j ks)
unfolding has insert_key
has-insert_key j k [] = refl
has-insert_key j k (i ∷ ks) = ground (arith, has-insert_key j k ks)

pub has-sort_keys : (j : ℕ) (ks : List ℕ) → has j (sort_keys ks) ≡ has j ks
unfolding has sort_keys
has-sort_keys j [] = refl
has-sort_keys j (k ∷ ks) = ground (arith, has-insert_key j k (sort_keys ks), has-sort_keys j ks)

pub has-append : (j : ℕ) (ks ls : List ℕ) → has j (ks ++ ls) ≡ (has j ks || has j ls)
unfolding has
has-append j [] ls = refl
has-append j (k ∷ ks) ls = ground (arith, has-append j ks ls)

-- `k` is the next of the keys from `x` on, round the end of the ring.
pub record Owns (x : ℕ) (keys : List ℕ) (k : ℕ) : Type 0 where
  pub member : has k keys ≡ true
  pub next :
      ((x ≤ k) × ((j : ℕ) → has j keys ≡ true → x ≤ j → k ≤ j))
      ⊎ ((j : ℕ) → has j keys ≡ true → (j < x) × (k ≤ j))

pub Owns-unique : (x : ℕ) (keys : List ℕ) (k l : ℕ) → Owns x keys k → Owns x keys l → k ≡ l
Owns-unique x keys k l a b = elim a.next [
  | inl (ge, least) ↦ elim b.next [
    | inl (ge', least') ↦ omega (arith, least l b.member ge', least' k a.member ge)
    | inr low ↦ absurd (omega (arith, low k a.member))
  ]
  | inr low ↦ elim b.next [
    | inl (ge', least') ↦ absurd (omega (arith, low l b.member))
    | inr low' ↦ omega (arith, low l b.member, low' k a.member)
  ]
]

-- Where keys are added, the key of a hash is a new one or the old one.
pub Owns-append :
    (x : ℕ) (old new all : List ℕ) (k : ℕ)
    → ((j : ℕ) → has j all ≡ (has j old || has j new))
    → Owns x all k
    → (has k new ≡ true) ⊎ Owns x old k
Owns-append x old new all k h a = elim (Bool-cases (has k new)) [
  | inl there ↦ inl there
  | inr not_there ↦ inr (record {
    member = ground (arith, h k, a.member);
    next = elim a.next [
      | inl (ge, least) ↦ inl (ge, λ j hj. least j (ground (arith, h j)))
      | inr low ↦ inr (λ j hj. low j (ground (arith, h j)))
    ];
  })
]

-- The key that Get takes.
unfoldable pub key_of : ℕ → List ℕ → ℕ
key_of x keys = get_or keys (search_keys x keys % length keys) 0

search_keys-le : (x : ℕ) (keys : List ℕ) → search_keys x keys ≤ length keys
unfolding search_keys
search_keys-le x [] = omega arith
search_keys-le x (k ∷ ks) = ground (arith, search_keys-le x ks)

-- What the search finds: the first key that is not below `x`, if there is one.
pub has_later : (j k : ℕ) (ks : List ℕ) → has j ks ≡ true → has j (k ∷ ks) ≡ true
unfolding has
has_later j k ks h = ground arith

pub has_first : (k : ℕ) (ks : List ℕ) → has k (k ∷ ks) ≡ true
unfolding has
has_first k ks = ground arith

search_keys_found :
    (x : ℕ) (keys : List ℕ)
    → search_keys x keys < length keys
    → (x ≤ get_or keys (search_keys x keys) 0)
      × (has (get_or keys (search_keys x keys) 0) keys ≡ true)
unfolding search_keys
search_keys_found x [] h = absurd (omega arith)
search_keys_found x (k ∷ ks) h = elim (Bool-cases (leb x k)) [
  | inl here ↦
      let e : search_keys x (k ∷ ks) ≡ 0 = rw here refl in rw e (leb→le x k here, has_first k ks)
  | inr further ↦
      let e : search_keys x (k ∷ ks) ≡ suc (search_keys x ks) = rw further refl in
      let r = search_keys_found x ks (omega arith) in rw e (r.0, has_later _ k ks r.1)
]

search_keys_least :
    (x j : ℕ) (keys : List ℕ)
    → IsSorted keys
    → has j keys ≡ true
    → x ≤ j
    → (search_keys x keys < length keys) × (get_or keys (search_keys x keys) 0 ≤ j)
unfolding search_keys has
search_keys_least x j [] s h le = cc
search_keys_least x j (k ∷ ks) s h le = elim (Bool-cases (leb x k)) [
  | inl here ↦ rw here (omega arith, ground (arith, AllGe-has k j ks s.0))
  | inr further ↦
      let there : has j ks ≡ true = ground arith in
      let r = search_keys_least x j ks s.1 there le in rw further (omega (arith, r.0), r.1)
]

-- Where the search finds none, the first key is the next one.
first_key-Owns :
    (x : ℕ) (keys : List ℕ)
    → 0 < length keys
    → IsSorted keys
    → search_keys x keys ≡ length keys
    → Owns x keys (get_or keys 0 0)
first_key-Owns x [] h s all = absurd (omega arith)
first_key-Owns x (k ∷ ks) h s all = record {
  member = has_first k ks;
  next = inr λ j hj. (
    elim (Bool-cases (leb x j)) [
      | inl below ↦
          absurd (omega (arith, (search_keys_least x j (k ∷ ks) s hj (leb→le x j below)).0))
      | inr above ↦ ground arith
    ],
    unfold has in ground (arith, AllGe-has k j ks s.0),
  );
}

pub key_of-Owns :
    (x : ℕ) (keys : List ℕ) → 0 < length keys → IsSorted keys → Owns x keys (key_of x keys)
unfolding key_of
key_of-Owns x keys h s = elim (Bool-cases (ltb (search_keys x keys) (length keys))) [
  | inl found ↦
      let lt = ltb→lt _ _ found in
      let e : search_keys x keys % length keys ≡ search_keys x keys = grind arith in
      let f = search_keys_found x keys lt in
      rw e (record {
        member = f.1;
        next = inl (f.0, λ j hj le. (search_keys_least x j keys s hj le).1);
      })
  | inr none_found ↦
      let all : search_keys x keys ≡ length keys = ground (arith, search_keys-le x keys) in
      let e : search_keys x keys % length keys ≡ 0 = rw all (grind arith) in
      rw e (first_key-Owns x keys h s all)
]
