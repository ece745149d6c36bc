-- ===== src/Collection/RollingWindow/Slots.antt =====
-- Windows of a sequence of buckets, one for each interval of time, and how rolling
-- (core/collection/rollingwindow.go, updateOffset) moves along it.
use mathlib.Core.Path.{ap₂}
use native.Mathlib.Nat.{add-mul-div_right, add-mul-mod_self_right}
use fastgozero.Prelude.{
  ℕ, zero, suc, ◌+◌, ◌-◌, ◌*◌, ◌/◌, ◌%◌, ◌≤◌, ◌<◌, ◌≡◌, refl, ap, sym, ◌∙◌, List, [], ◌∷◌, ◌++◌,
  arith, take, drop, dec_lt, replicate, min,
}
use fastgozero.Collection.RollingWindow.{BucketInterface}
use fastgozero.Collection.RollingWindow.View.{map_last, roll}

-- The entries `p, …, p + n - 1` of a sequence.
unfoldable pub slots {ℓ} : {B : Type ℓ} → (ℕ → B) → ℕ → ℕ → List B
slots h p zero = []
slots h p (suc n) = h p ∷ slots h (p + 1) n

module _ {ℓ} {B : Type ℓ} (h : ℕ → B) where
  take-slots : (p c e : ℕ) → take c (slots h p (c + e)) ≡ slots h p c
  unfolding slots
  take-slots p zero e = refl
  take-slots p (suc c) e =
      ap (λ n. take (suc c) (slots h p n)) suc_add ∙ ap (◌∷◌ (h p)) (take-slots (p + 1) c e)
    where
      suc_add : suc c + e ≡ suc (c + e)
      suc_add = omega arith

  drop-slots : (p k c : ℕ) → drop k (slots h p (k + c)) ≡ slots h (p + k) c
  unfolding slots
  drop-slots p zero c = ap₂ (slots h) p_zero zero_add
    where
      p_zero : p ≡ p + 0
      p_zero = omega arith

      zero_add : 0 + c ≡ c
      zero_add = omega arith
  drop-slots p (suc k) c =
      ap (λ n. drop (suc k) (slots h p n)) suc_add
      ∙ drop-slots (p + 1) k c
      ∙ ap (λ q. slots h q c) (omega arith)
    where
      suc_add : suc k + c ≡ suc (k + c)
      suc_add = omega arith

  pub slots-snoc : (p n : ℕ) → slots h p (suc n) ≡ slots h p n ++ (h (p + n) ∷ [])
  unfolding slots
  slots-snoc p zero = ap (λ q. h q ∷ []) (omega arith)
  slots-snoc p (suc n) =
      ap (◌∷◌ (h p))
        (slots-snoc (p + 1) n ∙ ap (λ q. slots h (p + 1) n ++ (h q ∷ [])) (omega arith))

pub slots_congr {ℓ} :
    {B : Type ℓ} (h g : ℕ → B) (p n : ℕ)
    → ((q : ℕ) → p ≤ q → q < p + n → h q ≡ g q)
    → slots h p n ≡ slots g p n
unfolding slots
slots_congr h g p zero e = refl
slots_congr h g p (suc n) e =
    ap₂ ◌∷◌ (e p (omega arith) (omega arith))
      (slots_congr h g (p + 1) n (λ q a b. e q (omega arith) (omega arith)))

pub map_last-slots {ℓ} :
    {B : Type ℓ} (f : B → B) (h : ℕ → B) (p n : ℕ)
    → map_last f (slots h p (suc n)) ≡ slots h p n ++ (f (h (p + n)) ∷ [])
unfolding slots map_last
map_last-slots f h p zero = ap (λ q. f (h q) ∷ []) (omega arith)
map_last-slots f h p (suc n) =
    ap (◌∷◌ (h p))
      (map_last-slots f h (p + 1) n ∙ ap (λ q. slots h (p + 1) n ++ (f (h q) ∷ [])) (omega arith))

pub take_to {ℓ} : {B : Type ℓ} (h : ℕ → B) (p n c : ℕ) → c ≤ n → take c (slots h p n) ≡ slots h p c
take_to h p n c le = ap (λ k. take c (slots h p k)) whole ∙ take-slots h p c (n - c)
  where
    whole : n ≡ c + (n - c)
    whole = omega arith

-- What is left `k - e` intervals later: nothing, after a whole window.
pub drop_to {ℓ} :
    {B : Type ℓ} (h : ℕ → B) (e k n : ℕ)
    → e ≤ k
    → drop (min (k - e) n) (slots h e n) ≡ slots h k (e + n - k)
unfolding slots
drop_to h e k n le =
    ap (λ c. drop s (slots h e c)) whole ∙ drop-slots h e s (n - s) ∙ elim (dec_lt n (k - e)) [
      | yes lt ↦
          ap (slots h (e + s)) {x = n - s} {y = 0} (omega arith)
          ∙ ap (slots h k) {x = 0} {y = e + n - k} (omega arith)
      | no ge ↦ ap₂ (slots h) {x = e + s} {y = k} (omega arith) (omega arith)
    ]
  where
    s : ℕ
    s = min (k - e) n

    whole : n ≡ s + (n - s)
    whole = omega arith

-- Division shifted by whole intervals.
pub div_shift :
    (a n e : ℕ) → 0 < n → e * n ≤ a → ((a - e * n) / n ≡ a / n - e) × ((a - e * n) % n ≡ a % n)
div_shift a n e h le =
    let split : a ≡ (a - e * n) + e * n = omega arith in
    let quotient : a / n ≡ (a - e * n) / n + e =
      ap (λ t. t / n) split ∙ add-mul-div_right (a - e * n) e h in
    (omega arith, sym (ap (λ t. t % n) split ∙ add-mul-mod_self_right (a - e * n) e n))

module _ {ℓ} {V B : Type ℓ} (i : BucketInterface V B) (blank : (b : B) → i.reset b ≡ i.fresh) where
  -- `n` intervals later, over a sequence that is fresh from there on.
  roll-slots :
      (h : ℕ → B) (k p n : ℕ)
      → ((q : ℕ) → p + suc n ≤ q → h q ≡ i.fresh)
      → roll i k (slots h p (suc n)) ≡ slots h (p + k) (suc n)
  unfolding roll slots
  roll-slots h zero p n later = ap (λ q. slots h q (suc n)) (omega arith)
  roll-slots h (suc k) p n later =
      ap (λ b. roll i k (slots h (p + 1) n ++ (b ∷ [])))
        (blank (h p) ∙ sym (later (p + 1 + n) (omega arith)))
      ∙ ap (roll i k) (sym (slots-snoc h (p + 1) n))
      ∙ roll-slots h k (p + 1) n (λ q a. later q (omega arith))
      ∙ ap (λ q. slots h q (suc n)) (omega arith)

  slots_fresh :
      (h : ℕ → B) (p n : ℕ) → ((q : ℕ) → p ≤ q → h q ≡ i.fresh) → slots h p n ≡ replicate n i.fresh
  unfolding slots
  slots_fresh h p zero f = refl
  slots_fresh h p (suc n) f =
      ap₂ ◌∷◌ (f p (omega arith)) (slots_fresh h (p + 1) n (λ q a. f q (omega arith)))

  -- `k` intervals later, or a whole window later if `k` is more.
  pub roll_to :
      (h : ℕ → B) (e k n : ℕ)
      → 0 < n
      → ((q : ℕ) → e + n ≤ q → h q ≡ i.fresh)
      → roll i (min k n) (slots h e n) ≡ slots h (e + k) n
  roll_to h e k zero pos later = absurd (omega arith)
  roll_to h e k (suc m) pos later = elim (dec_lt (suc m) k) [
    | yes lt ↦
        roll-slots h (min k (suc m)) e m later
        ∙ slots_fresh h (e + min k (suc m)) (suc m) (λ q a. later q (omega arith))
        ∙ sym (slots_fresh h (e + k) (suc m) (λ q a. later q (omega arith)))
    | no ge ↦ roll-slots h (min k (suc m)) e m later ∙ ap (λ p. slots h p (suc m)) (omega arith)
  ]
