-- ===== src/Collection/RollingWindow/View.antt =====
-- A rolling window (core/collection/rollingwindow.go) as the list of its buckets, oldest first.
use mathlib.Core.Path.{ap₂}
use native.Mathlib.Nat.{mod-add-mod, mod-eq_of_lt}
use fastgozero.Prelude.{
  ℕ, zero, suc, ◌+◌, ◌-◌, ◌%◌, ◌≤◌, ◌<◌, ◌≡◌, refl, ap, sym, ◌∙◌, List, [], ◌∷◌, ◌++◌, arith,
  length, get_or, set, take, drop, length-set,
}
use fastgozero.Prelude.Cyclic.{
  cycle, cycle-turn, cycle-set, cycle-snoc, take-cycle, drop-cycle, mod_wrap, mod-lt',
}
use fastgozero.Collection.RollingWindow.{BucketInterface, reset_bucket, reset_expired, window_add}

-- The buckets of a slice of `n`, from the one after `offset` round to the one at `offset`.
unfoldable pub view_of {ℓ} : {B : Type ℓ} → B → List B → ℕ → ℕ → List B
view_of d buckets n offset = cycle d buckets n ((offset + 1) % n) 0 n

pub view_of-mod {ℓ} :
    {B : Type ℓ} (d : B) (buckets : List B) (n offset : ℕ)
    → view_of d buckets n (offset % n) ≡ view_of d buckets n offset
unfolding view_of
view_of-mod d buckets n offset = ap (λ s. cycle d buckets n s 0 n) (mod-add-mod offset n 1)

pub take-view_of {ℓ} :
    {B : Type ℓ} (d : B) (buckets : List B) (n c offset : ℕ)
    → c ≤ n
    → take c (view_of d buckets n offset) ≡ cycle d buckets n ((offset + 1) % n) 0 c
unfolding view_of
take-view_of d buckets n c offset h =
    ap (λ k. take c (cycle d buckets n ((offset + 1) % n) 0 k)) whole
    ∙ take-cycle d buckets n ((offset + 1) % n) 0 c (n - c)
  where
    whole : n ≡ c + (n - c)
    whole = omega arith

pub drop-view_of {ℓ} :
    {B : Type ℓ} (d : B) (buckets : List B) (n k offset : ℕ)
    → k ≤ n
    → drop k (view_of d buckets n offset) ≡ cycle d buckets n ((offset + k + 1) % n) 0 (n - k)
unfolding view_of
drop-view_of d buckets n k offset h =
    ap (λ c. drop k (cycle d buckets n ((offset + 1) % n) 0 c)) whole
    ∙ drop-cycle d buckets n ((offset + 1) % n) k (n - k)
    ∙ ap (λ s. cycle d buckets n s 0 (n - k))
        (mod-add-mod (offset + 1) n k ∙ ap (λ s. s % n) (omega arith))
  where
    whole : n ≡ k + (n - k)
    whole = omega arith

-- The last element changed.
unfoldable pub map_last {ℓ} : {B : Type ℓ} → (B → B) → List B → List B
map_last f [] = []
map_last f (b ∷ []) = f b ∷ []
map_last f (b ∷ c ∷ l) = b ∷ map_last f (c ∷ l)

map_last-snoc {ℓ} :
    {B : Type ℓ} (f : B → B) (l : List B) (b : B) → map_last f (l ++ (b ∷ [])) ≡ l ++ (f b ∷ [])
unfolding map_last
map_last-snoc f [] b = refl
map_last-snoc f (c ∷ []) b = refl
map_last-snoc f (c ∷ c' ∷ l) b = ap (◌∷◌ c) (map_last-snoc f (c' ∷ l) b)

module _ {ℓ} {V B : Type ℓ} (i : BucketInterface V B) where
  -- `k` times, the oldest bucket becomes the newest, reset.
  unfoldable pub roll : ℕ → List B → List B
  roll zero l = l
  roll (suc k) [] = []
  roll (suc k) (b ∷ l) = roll k (l ++ (i.reset b ∷ []))

  pub length-reset_expired :
      (n offset k rounds : ℕ) (buckets : List B)
      → length (reset_expired i n offset k rounds buckets) ≡ length buckets
  unfolding reset_expired reset_bucket
  length-reset_expired n offset k zero buckets = refl
  length-reset_expired n offset k (suc rounds) buckets =
      length-reset_expired n offset (k + 1) rounds _ ∙ length-set buckets _ _

  module _ (n m : ℕ) (e : n ≡ suc m) where
    reset_bucket-turn :
        (o : ℕ) (buckets : List B)
        → length buckets ≡ n
        → view_of i.fresh (reset_bucket i n ((o + 1) % n) buckets) n (o + 1)
          ≡ roll 1 (view_of i.fresh buckets n o)
    unfolding view_of roll reset_bucket cycle
    reset_bucket-turn o buckets len =
        ap₂ (λ p c. cycle i.fresh (set buckets p (i.reset (at p))) n ((o + 1 + 1) % n) 0 c) twice e
        ∙ cycle-turn i.fresh n m s ((o + 1 + 1) % n) buckets (i.reset (at s)) len e s_lt
            (sym (mod-add-mod (o + 1) n 1))
        ∙ ap (λ p. cycle i.fresh buckets n s 1 m ++ (i.reset (at p) ∷ [])) start
        ∙ ap (λ c. roll 1 (cycle i.fresh buckets n s 0 c)) (sym e)
      where
        s : ℕ
        s = (o + 1) % n

        at : ℕ → B
        at p = get_or buckets p i.fresh

        s_lt : s < n
        s_lt = mod-lt' (o + 1) n (omega arith)

        twice : s % n ≡ s
        twice = mod-eq_of_lt s_lt

        start : s ≡ (s + 0) % n
        start = sym (ap (λ t. t % n) (omega arith) ∙ mod-eq_of_lt s_lt)

    roll-roll : (r : ℕ) (l : List B) → roll r (roll 1 l) ≡ roll (suc r) l
    unfolding roll
    roll-roll zero [] = refl
    roll-roll (suc r) [] = refl
    roll-roll r (b ∷ l) = refl

    pub view-reset_expired :
        (o k rounds : ℕ) (buckets : List B)
        → length buckets ≡ n
        → view_of i.fresh (reset_expired i n o k rounds buckets) n (o + k + rounds)
          ≡ roll rounds (view_of i.fresh buckets n (o + k))
    unfolding reset_expired roll reset_bucket
    view-reset_expired o k zero buckets len = ap (view_of i.fresh buckets n) (omega arith)
    view-reset_expired o k (suc rounds) buckets len =
        ap (view_of i.fresh _ n) (omega arith)
        ∙ view-reset_expired o (k + 1) rounds turned (length-reset_bucket buckets ∙ len)
        ∙ ap (roll rounds)
            (ap (view_of i.fresh turned n) (omega arith) ∙ reset_bucket-turn (o + k) buckets len)
        ∙ roll-roll rounds (view_of i.fresh buckets n (o + k))
      where
        turned : List B
        turned = reset_bucket i n ((o + k + 1) % n) buckets

        length-reset_bucket :
            (bs : List B) → length (reset_bucket i n ((o + k + 1) % n) bs) ≡ length bs
        length-reset_bucket bs = length-set bs _ _

    -- window.add at the offset changes the newest bucket.
    pub view-window_add :
        (o : ℕ) (v : V) (buckets : List B)
        → length buckets ≡ n
        → o < n
        → view_of i.fresh (window_add i n o v buckets) n o
          ≡ map_last (i.add v) (view_of i.fresh buckets n o)
    unfolding window_add view_of
    view-window_add o v buckets len lt =
        ap₂
          (λ p c. cycle i.fresh (set buckets p (i.add v (get_or buckets (o % n) i.fresh))) n s 0 c)
          (mod-eq_of_lt lt ∙ last) e
        ∙ cycle-set i.fresh buckets n s m (i.add v (get_or buckets (o % n) i.fresh)) len s_lt
            (omega arith)
        ∙ sym (
            map_last-snoc (i.add v) (cycle i.fresh buckets n s 0 m)
              (get_or buckets (o % n) i.fresh))
        ∙ ap
            (λ p.
              map_last (i.add v) (cycle i.fresh buckets n s 0 m ++ (get_or buckets p i.fresh ∷ [])))
            (mod-eq_of_lt lt ∙ last ∙ ap (λ t. (s + t) % n) (omega arith))
        ∙ ap (map_last (i.add v)) (sym (cycle-snoc i.fresh buckets n s 0 m))
        ∙ ap (λ c. map_last (i.add v) (cycle i.fresh buckets n s 0 c)) (sym e)
      where
        s : ℕ
        s = (o + 1) % n

        s_lt : s < n
        s_lt = mod-lt' (o + 1) n (omega arith)

        last : o ≡ (s + m) % n
        last = ground (arith, mod_wrap (o + 1) n, mod_wrap (s + m) n)
