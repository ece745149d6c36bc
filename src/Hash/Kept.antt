-- ===== src/Hash/Kept.antt =====
-- consistenthash.go: what stands at the keys of a ring: Get gives nothing else, and Remove takes the
-- nodes of one text away.
use mathlib.Core.Path.{subst}
use fastgozero.Prelude.{
  ℕ, zero, suc, ◌%◌, ◌≡◌, ◌≢◌, refl, sym, ◌∙◌, inl, inr, false, List, [], ◌∷◌, ◌++◌, none, some,
  ◌==◌, if◌then◌else◌, length, get_or, ℕ_discrete, Bool-cases, Option-cases, ==_iff, arith,
}
use fastgozero.Prelude.Texts.{Text, text_eq}
use fastgozero.Prelude.Maps.{lookup, lookup-insert, lookup-delete}
use fastgozero.Hash.{
  ConsistentHash, got, nothing, panic, at_key, choose, get_node, keep_others, remove_ring_node,
  search_keys,
}

module _ {N : Type 0} where
  abbrev pub All : (N → Type 0) → List N → Type 0
  All P [] = Unit {0}
  All P (x ∷ xs) = P x × All P xs

  pub All-snoc : (P : N → Type 0) (xs : List N) (x : N) → All P xs → P x → All P (xs ++ x ∷ [])
  All-snoc P [] x h p = (p, tt)
  All-snoc P (y ∷ xs) x h p = (h.0, All-snoc P xs x h.1 p)

  pub All-mono : (P Q : N → Type 0) (xs : List N) → ((x : N) → P x → Q x) → All P xs → All Q xs
  All-mono P Q [] f h = tt
  All-mono P Q (x ∷ xs) f h = (f x h.0, All-mono P Q xs f h.1)

  get_or-All : (P : N → Type 0) (xs : List N) (i : ℕ) (d : N) → All P xs → P d → P (get_or xs i d)
  get_or-All P [] i d h p = p
  get_or-All P (x ∷ xs) zero d h p = h.0
  get_or-All P (x ∷ xs) (suc i) d h p = get_or-All P xs i d h.1 p

  choose-All :
      (P : N → Type 0) (inner : ℕ) (xs : List N) (x : N) → All P xs → choose inner xs ≡ got x → P x
  unfolding choose
  choose-All P inner [] x h e = cc
  choose-All P inner (y ∷ []) x h e = let same : y ≡ x = cc in subst P same h.0
  choose-All P inner (y ∷ z ∷ xs) x h e =
      let same : get_or (y ∷ z ∷ xs) (inner % length (y ∷ z ∷ xs)) y ≡ x = cc in
      subst P same (get_or-All P (y ∷ z ∷ xs) (inner % length (y ∷ z ∷ xs)) y h h.0)

  got_ne : (x : N) → got x ≢ nothing
  got_ne x e = cc

  panic_ne : (x : N) → got x ≢ panic
  panic_ne x e = cc

  get_node_empty :
      (h : ConsistentHash N) (v inner : Text) → h.ring ≡ [] → get_node h v inner ≡ nothing
  unfolding get_node
  get_node_empty h v inner r = rw r refl

  get_node_used :
      (h : ConsistentHash N) (v inner : Text) (y : ℕ × List N) (ys : List (ℕ × List N))
      → h.ring ≡ y ∷ ys
      → get_node h v inner ≡ (
          if length h.keys == 0
          then panic
          else choose (h.hash_func inner) (
              at_key (get_or h.keys (search_keys (h.hash_func v) h.keys % length h.keys) 0) h.ring))
  unfolding get_node
  get_node_used h v inner y ys r = rw r refl

  -- Get gives only what stands at some key.
  pub get_node-All :
      (P : N → Type 0) (h : ConsistentHash N) (v inner : Text) (x : N)
      → ((k : ℕ) → All P (at_key k h.ring))
      → get_node h v inner ≡ got x
      → P x
  get_node-All P h v inner x all e = go h.ring refl
    where
      go : (ring : List (ℕ × List N)) → h.ring ≡ ring → P x
      go [] r = let f = get_node_empty h v inner r in absurd (got_ne x (sym e ∙ f))
      go (y ∷ ys) r =
          let f = get_node_used h v inner y ys r in
          elim (Bool-cases (length h.keys == 0)) [
            | inl none_left ↦ absurd (panic_ne x (sym e ∙ f ∙ rw none_left refl))
            | inr some_left ↦
                choose-All P (h.hash_func inner) _ x
                  (all (get_or h.keys (search_keys (h.hash_func v) h.keys % length h.keys) 0))
                  (sym (rw some_left at f) ∙ e)
          ]

module _ {N : Type 0} (repr : N → Text) where
  module _ (k : ℕ) (r : Text) (ring : List (ℕ × List N)) where
    removed : ℕ → List N
    removed j = if k == j then keep_others repr r (at_key j ring) else at_key j ring

    remove_none :
        lookup ℕ_discrete k ring ≡ none
        → (j : ℕ) → at_key j (remove_ring_node repr k r ring) ≡ removed j
    unfolding removed remove_ring_node at_key keep_others
    remove_none e j = elim (Bool-cases (k == j)) [
      | inl here ↦
          let same = (==_iff k j).0 here in
          let f : lookup ℕ_discrete j ring ≡ none =
            subst (λ i. lookup ℕ_discrete i ring ≡ none) same e in
          ground (arith, f)
      | inr other ↦ ground arith
    ]

    remove_all :
        (xs : List N)
        → lookup ℕ_discrete k ring ≡ some xs
        → keep_others repr r xs ≡ []
        → (j : ℕ) → at_key j (remove_ring_node repr k r ring) ≡ removed j
    unfolding removed remove_ring_node at_key
    remove_all xs e f j = ground (arith, lookup-delete ℕ_discrete k j ring)

    remove_some :
        (xs : List N) (y : N) (ys : List N)
        → lookup ℕ_discrete k ring ≡ some xs
        → keep_others repr r xs ≡ y ∷ ys
        → (j : ℕ) → at_key j (remove_ring_node repr k r ring) ≡ removed j
    unfolding removed remove_ring_node at_key
    remove_some xs y ys e f j = ground (arith, lookup-insert ℕ_discrete k j (y ∷ ys) ring)

  pub at_key-remove_ring_node :
      (j k : ℕ) (r : Text) (ring : List (ℕ × List N))
      → at_key j (remove_ring_node repr k r ring)
        ≡ (if k == j then keep_others repr r (at_key j ring) else at_key j ring)
  unfolding removed
  at_key-remove_ring_node j k r ring = elim (Option-cases (lookup ℕ_discrete k ring)) [
    | inl gone ↦ remove_none k r ring gone j
    | inr (xs, there) ↦ by_rest xs there (keep_others repr r xs) refl
  ]
    where
      by_rest :
          (xs : List N)
          → lookup ℕ_discrete k ring ≡ some xs
          → (rest : List N) → keep_others repr r xs ≡ rest
          → at_key j (remove_ring_node repr k r ring)
            ≡ (if k == j then keep_others repr r (at_key j ring) else at_key j ring)
      by_rest xs e [] f = remove_all k r ring xs e f j
      by_rest xs e (y ∷ ys) f = remove_some k r ring xs y ys e f j

  pub keep_others-All :
      (P : N → Type 0) (r : Text) (xs : List N) → All P xs → All P (keep_others repr r xs)
  unfolding keep_others
  keep_others-All P r [] h = tt
  keep_others-All P r (x ∷ xs) h = elim (Bool-cases (text_eq (repr x) r)) [
    | inl same ↦ rw same (keep_others-All P r xs h.1)
    | inr other ↦ rw other (h.0, keep_others-All P r xs h.1)
  ]

  -- The nodes with other texts.
  abbrev pub IsOther : Text → N → Type 0
  IsOther r x = text_eq (repr x) r ≡ false

  pub keep_others-IsOther : (r : Text) (xs : List N) → All (IsOther r) (keep_others repr r xs)
  unfolding keep_others
  keep_others-IsOther r [] = tt
  keep_others-IsOther r (x ∷ xs) = elim (Bool-cases (text_eq (repr x) r)) [
    | inl same ↦ rw same (keep_others-IsOther r xs)
    | inr other ↦ rw other (other, keep_others-IsOther r xs)
  ]
