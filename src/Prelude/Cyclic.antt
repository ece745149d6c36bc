-- ===== src/Prelude/Cyclic.antt =====
-- Reading a slice round its end: the loop `for i := 0; i < count; i++ { ... xs[(start+i)%len(xs)] ... }`
-- that Ring.Take (core/collection/ring.go), Queue and window.reduce share.
use mathlib.Core.Path.{ap₂}
use native.Mathlib.Nat.{mod-eq_of_lt, mod-eq-sub-mod, mod-add-mod}
use fastgozero.Prelude.Lists.{length, get_or, set, take, drop, get_or-set_self, get_or-set_ne}
use fastgozero.Prelude.Tests.{ltb, if◌then◌else◌}
use Prim.Native.Nat.{ℕ, zero, suc, ◌+◌, ◌-◌, ◌%◌, ◌<◌}
use mathlib.Core.Path.{◌≡◌, refl, sym, ap, ◌∙◌}
use mathlib.Core.Logic.{◌≢◌}
use mathlib.Core.List.{List, [], ◌∷◌, ◌++◌}
use native.Mathlib.Omega.{arith}
use native.Mathlib.Decide.{dec_lt}

-- One turn at most: the remainder as a subtraction.
pub mod_wrap : (a n : ℕ) → a < n + n → a % n ≡ (if ltb a n then a else a - n)
mod_wrap a n h = elim (dec_lt a n) [
  | yes p ↦ ground (arith, mod-eq_of_lt {n = a} {m = n} p)
  | no p ↦ ground (
    arith,
    mod-eq-sub-mod {n = a} {m = n} (omega arith),
    mod-eq_of_lt {n = a - n} {m = n} (omega arith),
  )
]

module _ {ℓ} {A : Type ℓ} (d : A) (xs : List A) (n : ℕ) where
  -- The `count` elements that the loop reads from index `i` of the loop on.
  unfoldable pub cycle : ℕ → ℕ → ℕ → List A
  cycle start i zero = []
  cycle start i (suc count) = get_or xs ((start + i) % n) d ∷ cycle start (i + 1) count

  pub length-cycle : (start i count : ℕ) → length (cycle start i count) ≡ count
  unfolding cycle
  length-cycle start i zero = refl
  length-cycle start i (suc count) = ap suc (length-cycle start (i + 1) count)

  -- The last round of the loop, split off.
  pub cycle-snoc :
      (start i count : ℕ)
      → cycle start i (suc count)
        ≡ cycle start i count ++ (get_or xs ((start + (i + count)) % n) d ∷ [])
  unfolding cycle
  cycle-snoc start i zero = ap (λ k. get_or xs ((start + k) % n) d ∷ []) (omega arith)
  cycle-snoc start i (suc count) = ap (◌∷◌ (get_or xs ((start + i) % n) d)) (
      cycle-snoc start (i + 1) count
      ∙ ap (λ k. cycle start (i + 1) count ++ (get_or xs ((start + k) % n) d ∷ [])) (omega arith))

  -- Starting one element later, up to a full turn.
  pub cycle-shift : (s t i count : ℕ) → t ≡ (s + 1) % n → cycle s (i + 1) count ≡ cycle t i count
  unfolding cycle
  cycle-shift s t i zero e = refl
  cycle-shift s t i (suc count) e =
      ap₂ ◌∷◌ (ap (λ k. get_or xs k d) (rw (e, mod-add-mod) (ap (λ k. k % n) (omega arith))))
        (cycle-shift s t (i + 1) count e)

  -- Only the start's remainder matters.
  pub cycle-mod : (s i count : ℕ) → cycle (s % n) i count ≡ cycle s i count
  unfolding cycle
  cycle-mod s i zero = refl
  cycle-mod s i (suc count) =
      ap₂ ◌∷◌ (ap (λ k. get_or xs k d) (mod-add-mod s n i)) (cycle-mod s (i + 1) count)

  pub take-cycle : (s i c e : ℕ) → take c (cycle s i (c + e)) ≡ cycle s i c
  unfolding cycle
  take-cycle s i zero e = refl
  take-cycle s i (suc c) e =
      ap (λ k. take (suc c) (cycle s i k)) suc_add
      ∙ ap (◌∷◌ (get_or xs ((s + i) % n) d)) (take-cycle s (i + 1) c e)
    where
      suc_add : suc c + e ≡ suc (c + e)
      suc_add = omega arith

  pub drop-cycle : (s k c : ℕ) → drop k (cycle s 0 (k + c)) ≡ cycle ((s + k) % n) 0 c
  unfolding cycle
  drop-cycle s zero c =
      ap (λ k. cycle s 0 k) zero_add
      ∙ sym (cycle-mod s 0 c)
      ∙ ap (λ k. cycle (k % n) 0 c) (omega arith)
    where
      zero_add : 0 + c ≡ c
      zero_add = omega arith
  drop-cycle s (suc k) c =
      ap (λ j. drop (suc k) (cycle s 0 j)) suc_add
      ∙ ap (drop k) (cycle-shift s ((s + 1) % n) 0 (k + c) refl)
      ∙ drop-cycle ((s + 1) % n) k c
      ∙ ap (λ j. cycle j 0 c) (rw mod-add-mod (ap (λ j. j % n) (omega arith)))
    where
      suc_add : suc k + c ≡ suc (k + c)
      suc_add = omega arith

module _ {ℓ} {A : Type ℓ} (d : A) (n m : ℕ) where
  -- Two slices that agree on what the loop reads, at their own lengths.
  pub cycle_congr :
      (xs ys : List A) (s t i count : ℕ)
      → ((k : ℕ) → k < count → get_or xs ((s + (i + k)) % n) d ≡ get_or ys ((t + (i + k)) % m) d)
      → cycle d xs n s i count ≡ cycle d ys m t i count
  unfolding cycle
  cycle_congr xs ys s t i zero h = refl
  cycle_congr xs ys s t i (suc count) h =
      ap₂ ◌∷◌
        (ap (λ k. get_or xs ((s + k) % n) d) (omega arith)
          ∙ h 0 (omega arith)
          ∙ ap (λ k. get_or ys ((t + k) % m) d) (omega arith))
        (cycle_congr xs ys s t (i + 1) count (λ k hk.
          ap (λ k. get_or xs ((s + k) % n) d) (omega arith)
          ∙ h (suc k) (omega arith)
          ∙ ap (λ k. get_or ys ((t + k) % m) d) (omega arith)))

-- Fewer than a turn apart, two positions differ.
pub mod-ne : (n s a b : ℕ) → s < n → a < b → b < n → (s + b) % n ≢ (s + a) % n
mod-ne n s a b hs hab hb =
    ground (arith, mod_wrap (s + a) n (omega arith), mod_wrap (s + b) n (omega arith))

pub mod-lt' : (a n : ℕ) → 0 < n → a % n < n
mod-lt' a n h = grind arith

-- Writing just past what the loop reads adds one element at its end.
pub cycle-set {ℓ} :
    {A : Type ℓ} (d : A) (xs : List A) (n s c : ℕ) (v : A)
    → length xs ≡ n
    → s < n
    → c < n
    → cycle d (set xs ((s + c) % n) v) n s 0 (suc c) ≡ cycle d xs n s 0 c ++ (v ∷ [])
cycle-set {A} d xs n s c v e hs hc =
    cycle-snoc d (set xs p v) n s 0 c ∙ ap₂ ◌++◌ kept (ap (λ x. x ∷ []) written)
  where
    p : ℕ
    p = (s + c) % n

    kept : cycle d (set xs p v) n s 0 c ≡ cycle d xs n s 0 c
    kept = cycle_congr d n n (set xs p v) xs s s 0 c (λ k hk.
        get_or-set_ne xs p ((s + (0 + k)) % n) v d
          (λ q. mod-ne n s k c hs hk hc (q ∙ ap (λ t. (s + t) % n) (omega arith))))

    written : get_or (set xs p v) ((s + (0 + c)) % n) d ≡ v
    written =
        ap (λ t. get_or (set xs p v) ((s + t) % n) d) (omega arith)
        ∙ get_or-set_self xs p v d (rw e (mod-lt' (s + c) n (omega arith)))

-- Writing the oldest element of a full turn, and starting at the next one.
pub cycle-turn {ℓ} :
    {A : Type ℓ} (d : A) (n m s t : ℕ) (xs : List A) (v : A)
    → length xs ≡ n
    → n ≡ suc m
    → s < n
    → t ≡ (s + 1) % n
    → cycle d (set xs s v) n t 0 (suc m) ≡ cycle d xs n s 1 m ++ (v ∷ [])
cycle-turn d n m s t xs v e em hs et =
    ap (λ k. cycle d (set xs k v) n t 0 (suc m)) (sym back)
    ∙ cycle-set d xs n t m v e t_lt (omega arith)
    ∙ ap (λ l. l ++ (v ∷ [])) (sym (cycle-shift d xs n s t 0 m et))
  where
    t_lt : t < n
    t_lt = rw et (mod-lt' (s + 1) n (omega arith))

    back : (t + m) % n ≡ s
    back = ground (arith, mod_wrap (s + 1) n (omega arith), mod_wrap (t + m) n (omega arith))
