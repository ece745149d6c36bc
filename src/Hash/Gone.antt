-- ===== src/Hash/Gone.antt =====
-- consistenthash.go: a node that Remove took away is not served any more, whatever came before.
use mathlib.Core.Path.{subst}
use fastgozero.Prelude.{
  ℕ, zero, suc, ◌+◌, ◌<◌, ◌≡◌, refl, sym, ap, inl, inr, true, false, List, [], ◌∷◌, ◌++◌, ◌==◌,
  Bool-cases, arith,
}
use fastgozero.Prelude.Texts.{Text, text_eq, text_eq→eq, text_eq_self}
use fastgozero.Hash.{
  ConsistentHash, contains_node, add_node, remove_node, at_key, replica_hash, remove_ring_node,
  cut_key, remove_loop, remove,
}
use fastgozero.Hash.Order.{has, has_first, has_later}
use fastgozero.Hash.Place.{hashes, hashes_same}
use fastgozero.Hash.Kept.{
  All, All-mono, at_key-remove_ring_node, keep_others-All, IsOther, keep_others-IsOther,
}

pub contains_node-remove_node :
    (r s : Text) (nodes : List Text)
    → text_eq s r ≡ false
    → contains_node s nodes ≡ true
    → contains_node s (remove_node r nodes) ≡ true
unfolding contains_node remove_node
contains_node-remove_node r s [] ne h = cc
contains_node-remove_node r s (t ∷ ts) ne h = elim (Bool-cases (text_eq t s)) [
  | inl here ↦
      let e = text_eq→eq t s here in
      let kept : text_eq t r ≡ false = subst (λ u. text_eq u r ≡ false) (sym e) ne in
      rw (kept, here) refl
  | inr further ↦
      let later = contains_node-remove_node r s ts ne (rw further at h) in
      elim (Bool-cases (text_eq t r)) [
        | inl cut ↦ rw cut later
        | inr kept ↦ rw (kept, further) later
      ]
]

pub contains_node-add_node :
    (r : Text) (nodes : List Text) → contains_node r (add_node r nodes) ≡ true
unfolding add_node contains_node
contains_node-add_node r nodes = elim (Bool-cases (contains_node r nodes)) [
  | inl there ↦ rw there there
  | inr fresh ↦ rw (fresh, text_eq_self r) refl
]

pub contains_node-add_node_old :
    (r s : Text) (nodes : List Text)
    → contains_node s nodes ≡ true
    → contains_node s (add_node r nodes) ≡ true
unfolding add_node contains_node
contains_node-add_node_old r s nodes h = elim (Bool-cases (contains_node r nodes)) [
  | inl there ↦ rw there h
  | inr fresh ↦ rw fresh (ground arith)
]

module _ {N : Type 0} (repr : N → Text) (itoa : ℕ → Text) where
  -- A node stands at a key only as one of its replicas, and only if its text is known.
  abbrev pub Stands : ConsistentHash N → ℕ → N → Type 0
  Stands h k x =
      (contains_node (repr x) h.nodes ≡ true)
      × ((i : ℕ) × (i < h.replicas) × (k ≡ h.hash_func (repr x ++ itoa i)))

  abbrev pub IsPlaced : ConsistentHash N → Type 0
  IsPlaced h = (k : ℕ) → All (Stands h k) (at_key k h.ring)

  has-hashes :
      (n b i : ℕ) (node : N) (h : ConsistentHash N)
      → i < n
      → has (h.hash_func (repr node ++ itoa (b + i))) (hashes repr itoa n b node h) ≡ true
  unfolding hashes replica_hash
  has-hashes zero b i node h lt = absurd (omega arith)
  has-hashes (suc n) b zero node h lt =
      let e : b + 0 ≡ b = omega arith in
      subst
        (λ c. has (h.hash_func (repr node ++ itoa c)) (hashes repr itoa (suc n) b node h) ≡ true)
        (sym e) (has_first (replica_hash repr itoa h node b) (hashes repr itoa n (b + 1) node h))
  has-hashes (suc n) b (suc i) node h lt =
      let e : b + 1 + i ≡ b + suc i = omega arith in
      subst
        (λ c. has (h.hash_func (repr node ++ itoa c)) (hashes repr itoa (suc n) b node h) ≡ true) e
        (has_later _ (replica_hash repr itoa h node b) (hashes repr itoa n (b + 1) node h)
          (has-hashes n (b + 1) i node h (omega arith)))

  -- One round of the loop of Remove.
  abbrev round : ConsistentHash N → N → ℕ → ConsistentHash N
  round h node i =
      let k = replica_hash repr itoa h node i in
      record h { keys = cut_key k h.keys; ring = remove_ring_node repr k (repr node) h.ring }

  round-All :
      (P : N → Type 0) (h : ConsistentHash N) (node : N) (i j : ℕ)
      → All P (at_key j h.ring)
      → All P (at_key j (round h node i).ring)
  round-All P h node i j a =
      let k = replica_hash repr itoa h node i in
      rw (at_key-remove_ring_node repr j k (repr node) h.ring) (elim (Bool-cases (k == j)) [
        | inl here ↦ rw here (keep_others-All repr P (repr node) (at_key j h.ring) a)
        | inr other ↦ rw other a
      ])

  pub remove_loop-All :
      (P : N → Type 0) (n i : ℕ) (node : N) (h : ConsistentHash N) (j : ℕ)
      → All P (at_key j h.ring)
      → All P (at_key j (remove_loop repr itoa n i node h).ring)
  unfolding remove_loop
  remove_loop-All P zero i node h j a = a
  remove_loop-All P (suc n) i node h j a =
      remove_loop-All P n (i + 1) node (round h node i) j (round-All P h node i j a)

  remove_loop-IsOther :
      (n i : ℕ) (node : N) (h : ConsistentHash N) (j : ℕ)
      → has j (hashes repr itoa n i node h) ≡ true
      → All (IsOther repr (repr node)) (at_key j (remove_loop repr itoa n i node h).ring)
  unfolding remove_loop hashes has
  remove_loop-IsOther zero i node h j e = cc
  remove_loop-IsOther (suc n) i node h j e =
      let k = replica_hash repr itoa h node i in
      elim (Bool-cases (k == j)) [
        | inl here ↦ remove_loop-All (IsOther repr (repr node)) n (i + 1) node (round h node i) j (
            rw (at_key-remove_ring_node repr j k (repr node) h.ring, here)
              (keep_others-IsOther repr (repr node) (at_key j h.ring)))
        | inr further ↦
            remove_loop-IsOther n (i + 1) node (round h node i) j
              (rw (hashes_same repr itoa n (i + 1) node (round h node i) h refl) (rw further at e))
      ]

  pub remove_loop_fields :
      (n i : ℕ) (node : N) (h : ConsistentHash N)
      → ((remove_loop repr itoa n i node h).hash_func ≡ h.hash_func)
        × ((remove_loop repr itoa n i node h).replicas ≡ h.replicas)
        × ((remove_loop repr itoa n i node h).nodes ≡ h.nodes)
  unfolding remove_loop
  remove_loop_fields zero i node h = (refl, refl, refl)
  remove_loop_fields (suc n) i node h = remove_loop_fields n (i + 1) node (round h node i)

  -- All that Remove leaves has other texts than the node.
  pub remove-IsOther :
      (h : ConsistentHash N) (node : N)
      → IsPlaced h
      → (k : ℕ) → All (IsOther repr (repr node)) (at_key k (remove repr itoa h node).ring)
  unfolding remove
  remove-IsOther h node p k = elim (Bool-cases (contains_node (repr node) h.nodes)) [
    | inr unknown ↦ rw unknown (
        All-mono (Stands h k) (IsOther repr (repr node)) (at_key k h.ring)
          (λ x st. other_unknown x st.0 unknown) (p k))
    | inl known ↦ rw known (elim (Bool-cases (has k (hashes repr itoa h.replicas 0 node h))) [
      | inl cut ↦ remove_loop-IsOther h.replicas 0 node h k cut
      | inr away ↦ remove_loop-All (IsOther repr (repr node)) h.replicas 0 node h k (
          All-mono (Stands h k) (IsOther repr (repr node)) (at_key k h.ring)
            (λ x st. other_away x st away) (p k))
    ])
  ]
    where
      other_unknown :
          (x : N)
          → contains_node (repr x) h.nodes ≡ true
          → contains_node (repr node) h.nodes ≡ false
          → IsOther repr (repr node) x
      other_unknown x there unknown = elim (Bool-cases (text_eq (repr x) (repr node))) [
        | inl same ↦ cc (ap (λ r. contains_node r h.nodes) (text_eq→eq (repr x) (repr node) same))
        | inr other ↦ other
      ]

      other_away :
          (x : N)
          → Stands h k x
          → has k (hashes repr itoa h.replicas 0 node h) ≡ false
          → IsOther repr (repr node) x
      other_away x (there, (i, lt, e)) away = elim (Bool-cases (text_eq (repr x) (repr node))) [
        | inl same ↦
            let f = text_eq→eq (repr x) (repr node) same in
            let g : 0 + i ≡ i = omega arith in
            let c = has-hashes h.replicas 0 i node h lt in
            cc (ap (λ r. h.hash_func (r ++ itoa i)) f)
        | inr other ↦ other
      ]
