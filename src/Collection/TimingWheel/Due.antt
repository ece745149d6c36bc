-- ===== src/Collection/TimingWheel/Due.antt =====
-- How many ticks an entry of a timing wheel (core/collection/timingwheel.go) waits.
use native.Mathlib.Nat.{mod-add-mod, add-mod_right, div-add-mod'}
use fastgozero.Prelude.{
  ℕ, suc, ◌+◌, ◌-◌, ◌*◌, ◌/◌, ◌%◌, ◌<◌, ◌≡◌, ◌≢◌, ◌⊎◌, ap, ◌∙◌, List, [], ◌∷◌, ◌++◌, arith, ◌==◌,
  if◌then◌else◌, length, false, some,
}
use fastgozero.Prelude.Cyclic.{mod_wrap}
use fastgozero.Collection.TimingWheel.{Entry, Wheel, slot_at}

-- The ticks until slot `p` is visited, from 1 to `n`, if slot `t` was visited last.
unfoldable pub dist : ℕ → ℕ → ℕ → ℕ
dist n t p = (p + n - t - 1) % n + 1

-- The ticks until an entry of slot `p` runs: until the slot is visited, `circle` turns more, and
-- `diff` ticks more in the slot where it goes then.
unfoldable pub due : ℕ → ℕ → ℕ → ℕ → ℕ → ℕ
unfolding dist
due n t p circle diff = dist n t p + circle * n + diff

-- One tick brings a slot one nearer; the slot that is visited is a whole turn away again.
pub dist_tick :
    (n t p : ℕ)
    → t < n
    → p < n
    → dist n t p ≡ (if p == ((t + 1) % n) then 1 else dist n ((t + 1) % n) p + 1)
unfolding dist
dist_tick n t p ht hp = ground (
  arith,
  mod_wrap (t + 1) n (omega arith),
  mod_wrap (p + n - t - 1) n (omega arith),
  mod_wrap (p + n - (t + 1) % n - 1) n,
)

pub dist_self : (n p : ℕ) → p < n → dist n p p ≡ n
unfolding dist
dist_self n p h = ground (arith, mod_wrap (p + n - p - 1) n (omega arith))

-- The slot and the circle for `s` steps make an entry wait `s` ticks.
pub due_steps : (n t s : ℕ) → t < n → 0 < s → due n t ((t + s) % n) ((s - 1) / n) 0 ≡ s
unfolding due dist
due_steps n t s ht hs = omega (arith, turn, div-add-mod' (s - 1) n)
  where
    turn : ((t + s) % n + n - t - 1) % n ≡ (s - 1) % n
    turn =
        ap (λ a. a % n) {x = (t + s) % n + n - t - 1} {y = (t + s) % n + (n - t - 1)} (omega arith)
        ∙ mod-add-mod (t + s) n (n - t - 1)
        ∙ ap (λ a. a % n) {x = t + s + (n - t - 1)} {y = s - 1 + n} (omega arith)
        ∙ add-mod_right (s - 1) n

-- How often a reference stands in a slot.
unfoldable pub count : ℕ → List ℕ → ℕ
count r [] = 0
count r (q ∷ l) = if q == r then suc (count r l) else count r l

pub count-append : (r : ℕ) (l m : List ℕ) → count r (l ++ m) ≡ count r l + count r m
unfolding count
count-append r [] m = omega arith
count-append r (q ∷ l) m = ground (arith, count-append r l m)

-- A member of a list of tasks.
abbrev pub Has : {A : Type 0} → A → List A → Type 0
Has x [] = ⊥
Has x (y ∷ l) = (x ≡ y) ⊎ Has x l

-- Entry `e` is at reference `r`, live, in slot `p` once and nowhere else, and runs in `d` ticks.
pub record Pending {K V : Type 0} (r p d : ℕ) (e : Entry K V) (w : Wheel K V) : Type 0 where
  pub ticked_in : w.ticked_pos < w.num_slots
  pub sized : length w.slots ≡ w.num_slots
  pub pos_in : p < w.num_slots
  pub held : w.heap r ≡ some e
  pub live : e.removed ≡ false
  pub diff_in : e.diff < w.num_slots
  pub once : count r (slot_at w p) ≡ 1
  pub elsewhere : (q : ℕ) → q ≢ p → count r (slot_at w q) ≡ 0
  pub waits : due w.num_slots w.ticked_pos p e.circle e.diff ≡ d
