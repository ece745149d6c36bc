-- ===== src/Collection/Fifo/Taken.antt =====
-- Take of Queue (core/collection/fifo.go) on the list of its elements.
use native.Mathlib.Nat.{mod-add-mod}
use fastgozero.Prelude.{
  ℕ, zero, suc, ◌+◌, ◌-◌, ◌%◌, ◌<◌, ◌≡◌, refl, ap, sym, ◌∙◌, List, [], ◌∷◌, Option, none, some,
  false, inl, inr, Bool-cases, if◌then◌else◌, arith, ◌==◌, length, get_elem?, get_or,
}
use fastgozero.Prelude.Cyclic.{cycle, cycle-shift, mod_wrap, mod-lt'}
use fastgozero.Collection.Fifo.{Queue, take_first}
use fastgozero.Collection.Fifo.Inv.{IsValid, contents}

get_elem?-eq-get_or {ℓ} :
    {A : Type ℓ} (xs : List A) (i : ℕ) (d : A)
    → i < length xs
    → get_elem? xs i ≡ some (get_or xs i d)
get_elem?-eq-get_or [] i d h = absurd (omega arith)
get_elem?-eq-get_or (x ∷ xs) zero d h = refl
get_elem?-eq-get_or (x ∷ xs) (suc i) d h = get_elem?-eq-get_or xs i d (omega arith)

module _ {ℓ} {A : Type ℓ} (nil : A) where
  -- What Take returns and leaves, from the list of the elements.
  abbrev pub TakesFirst : List A → Option A × Queue A → Type ℓ
  TakesFirst [] r = (r.0 ≡ none) × (contents nil r.1 ≡ [])
  TakesFirst (x ∷ l) r = (r.0 ≡ some x) × (contents nil r.1 ≡ l)

  contents-zero : (q : Queue A) → q.count ≡ 0 → contents nil q ≡ []
  unfolding contents cycle
  contents-zero q e = ap (λ c. cycle nil q.elements (length q.elements) q.head 0 c) e

  contents-suc :
      (q : Queue A) (c : ℕ)
      → q.count ≡ suc c
      → contents nil q
        ≡ get_or q.elements ((q.head + 0) % length q.elements) nil
          ∷ cycle nil q.elements (length q.elements) q.head 1 c
  unfolding contents cycle
  contents-suc q c e = ap (λ c. cycle nil q.elements (length q.elements) q.head 0 c) e

  -- What Take gives on a queue whose head is in range.
  pub taken : Queue A → Option A × Queue A
  taken q = if q.count == 0 then (none, q) else (
    get_elem? q.elements q.head,
    record q { head = (q.head + 1) % length q.elements; count = q.count - 1 },
  )

  pub take_first-taken : (q : Queue A) → IsValid q → take_first q ≡ some (taken q)
  unfolding take_first taken
  take_first-taken q h = elim (Bool-cases (q.count == 0)) [
    | inl zero_left ↦ rw zero_left refl
    | inr some_left ↦ rw (some_left, get_elem?-eq-get_or q.elements q.head nil h.head_in) refl
  ]

  taken-zero : (q : Queue A) → q.count ≡ 0 → taken q ≡ (none, q)
  unfolding taken
  taken-zero q e = rw e

  taken-suc :
      (q : Queue A) (c : ℕ)
      → IsValid q
      → q.count ≡ suc c
      → IsValid (taken q).1
        × ((taken q).0 ≡ some (get_or q.elements ((q.head + 0) % length q.elements) nil))
        × (contents nil (taken q).1 ≡ cycle nil q.elements (length q.elements) q.head 1 c)
  unfolding taken contents
  taken-suc q c h e = rw nonzero (
    record {
      some_size = h.some_size;
      head_in = mod-lt' (q.head + 1) len (omega (arith, h.head_in));
      count_in = omega (arith, h.count_in);
      tail_at = h.tail_at ∙ turned;
    },
    get_elem?-eq-get_or q.elements q.head nil h.head_in
        ∙ ap (λ i. some (get_or q.elements i nil)) at_head,
    ap (λ k. cycle nil q.elements len ((q.head + 1) % len) 0 k) (omega arith)
        ∙ sym (cycle-shift nil q.elements len q.head ((q.head + 1) % len) 0 c refl),
  )
    where
      len : ℕ
      len = length q.elements

      at_head : q.head ≡ (q.head + 0) % len
      at_head = ground (arith, h.head_in, mod_wrap (q.head + 0) len)

      nonzero : (q.count == 0) ≡ false
      nonzero = ground arith

      turned : (q.head + q.count) % len ≡ ((q.head + 1) % len + (q.count - 1)) % len
      turned = rw mod-add-mod (ap (λ t. t % len) (omega arith))

  -- Take on a valid queue returns the first element and leaves the others; on an empty queue it
  -- returns nothing and changes nothing.
  pub taken_lem :
      (q : Queue A) → IsValid q → IsValid (taken q).1 × TakesFirst (contents nil q) (taken q)
  taken_lem q h = go q.count refl
    where
      go : (c : ℕ) → q.count ≡ c → IsValid (taken q).1 × TakesFirst (contents nil q) (taken q)
      go zero e = rw (contents-zero q e, taken-zero q e) (h, (refl, contents-zero q e))
      go (suc c) e = let t = taken-suc q c h e in rw (contents-suc q c e) (t.0, (t.1, t.2))
