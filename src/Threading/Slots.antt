-- ===== src/Threading/Slots.antt =====
-- core/threading/stablerunner.go: the ring of holders, and which index stands in which of them.
use native.Mathlib.Nat.{mod-add-mod, mod-mod}
use fastgozero.Prelude.{
  ℕ, zero, suc, ◌+◌, ◌-◌, ◌%◌, ◌<◌, ◌≤◌, ◌≡◌, ◌≢◌, refl, sym, ap, ◌∙◌, ◌⊎◌, inl, inr, List, [], ◌∷◌,
  ◌++◌, Option, none, some, length, get_elem?, take, dec_lt, ℕ_discrete, arith,
}
use fastgozero.Prelude.Cyclic.{mod-lt', mod-ne}
use fastgozero.Threading.{set_at}

slot_ne : (n i j : ℕ) → 0 < n → i < j → j < i + n → i % n ≢ j % n
slot_ne n i j pos lt near e =
    mod-ne n (i % n) 0 (j - i) (mod-lt' i n pos) (omega arith) (omega arith) (
      mod-add-mod i n (j - i)
      ∙ ap (λ k. k % n) (omega arith)
      ∙ sym e
      ∙ sym (mod-mod i n)
      ∙ ap (λ k. k % n) (omega arith))

pub same_slot : (n i j : ℕ) → 0 < n → i % n ≡ j % n → i < j + n → j < i + n → i ≡ j
same_slot n i j pos e near near' = elim (dec_lt i j) [
  | yes lt ↦ absurd (slot_ne n i j pos lt near' e)
  | no ge ↦ elim (dec_lt j i) [
    | yes gt ↦ absurd (slot_ne n j i pos gt near (sym e))
    | no le ↦ omega arith
  ]
]

module _ {A : Type 0} where
  pub set_at_at : (f : ℕ → A) (k : ℕ) (a : A) (i : ℕ) → i ≡ k → set_at f k a i ≡ a
  set_at_at f k a i e = ground arith

  pub set_at_other : (f : ℕ → A) (k : ℕ) (a : A) (i : ℕ) → i ≢ k → set_at f k a i ≡ f i
  set_at_other f k a i ne = ground arith

  pub set_at-cases :
      (f : ℕ → A) (k : ℕ) (a : A) (i : ℕ)
      → ((i ≡ k) × (set_at f k a i ≡ a)) ⊎ ((i ≢ k) × (set_at f k a i ≡ f i))
  set_at-cases f k a i = elim (ℕ_discrete i k) [
    | yes e ↦ inl (e, ground arith)
    | no ne ↦ inr (ne, ground arith)
  ]

  pub get_elem?_old :
      (xs : List A) (a : A) (i : ℕ) (b : A)
      → get_elem? xs i ≡ some b
      → get_elem? (xs ++ a ∷ []) i ≡ some b
  get_elem?_old [] a i b p = grind arith
  get_elem?_old (x ∷ xs) a zero b p = p
  get_elem?_old (x ∷ xs) a (suc i) b p = get_elem?_old xs a i b p

  pub get_elem?_last : (xs : List A) (a : A) → get_elem? (xs ++ a ∷ []) (length xs) ≡ some a
  get_elem?_last [] a = refl
  get_elem?_last (x ∷ xs) a = get_elem?_last xs a

  pub take-get_elem? :
      (xs : List A) (i : ℕ) (b : A)
      → get_elem? xs i ≡ some b
      → take (suc i) xs ≡ take i xs ++ b ∷ []
  take-get_elem? [] i b p = grind arith
  take-get_elem? (x ∷ xs) zero b p = cc
  take-get_elem? (x ∷ xs) (suc i) b p = ap (◌∷◌ x) (take-get_elem? xs i b p)

  pub take-longer : (xs ys : List A) (i : ℕ) → i ≤ length xs → take i (xs ++ ys) ≡ take i xs
  take-longer xs ys zero h = refl
  take-longer [] ys (suc i) h = absurd (omega arith)
  take-longer (x ∷ xs) ys (suc i) h = ap (◌∷◌ x) (take-longer xs ys i (omega arith))

  pub take-all : (xs : List A) (i : ℕ) → length xs ≤ i → take (suc i) xs ≡ take i xs
  take-all [] zero h = refl
  take-all [] (suc i) h = refl
  take-all (x ∷ xs) zero h = absurd (omega arith)
  take-all (x ∷ xs) (suc i) h = ap (◌∷◌ x) (take-all xs i (omega arith))

  pub take-everything : (xs : List A) (i : ℕ) → length xs ≤ i → take i xs ≡ xs
  take-everything [] zero h = refl
  take-everything [] (suc i) h = refl
  take-everything (x ∷ xs) zero h = absurd (omega arith)
  take-everything (x ∷ xs) (suc i) h = ap (◌∷◌ x) (take-everything xs i (omega arith))

module _ {A : Type 0} where
  pub some_pair :
      {i j : ℕ} {a b : A} → ◌≡◌ {A = Option (ℕ × A)} (some (i, a)) (some (j, b)) → (i ≡ j) × (a ≡ b)
  some_pair p = (cc, cc)

  pub none_pair : {a : A} → ◌≡◌ {A = Option A} none (some a) → ⊥
  none_pair p = grind arith
