-- ===== src/Executors/Less.antt =====
-- core/executors/lessexecutor.go: LessExecutor, with its calls one after the other, and with calls
-- that meet between the Load and the Set of lastTime. The clock readings are arguments.
use fastgozero.Prelude.{
  ℕ, ◌+◌, ◌<◌, ◌≡◌, refl, ap, ◌⊎◌, inl, inr, Bool, true, false, List, [], ◌∷◌, ◌++◌, length,
  if◌then◌else◌, Bool-cases, ◌||◌, ltb, ◌==◌, arith,
}

-- `passed` are the readings of calls that go on to Set, `executed` those of calls that set lastTime
-- and execute, newest first.
pub record LessExecutor : Type 0 where
  pub threshold : ℕ
  pub last_time : ℕ
  pub passed : List ℕ
  pub executed : List ℕ

abbrev pub new_less_executor : ℕ → LessExecutor
new_less_executor threshold = record {
  threshold = threshold;
  last_time = 0;
  passed = [];
  executed = [];
}

-- The test of DoOrDiscard after the Load.
abbrev pub is_due : ℕ → LessExecutor → Bool
is_due now le = (le.last_time == 0) || ltb (le.last_time + le.threshold) now

-- lastTime.Set and the execution.
abbrev pub set_and_execute : ℕ → LessExecutor → LessExecutor
set_and_execute now le = record le { last_time = now; executed = now ∷ le.executed }

-- A whole call, with its result.
unfoldable pub do_or_discard : ℕ → LessExecutor → LessExecutor × Bool
do_or_discard now le = if is_due now le then (set_and_execute now le, true) else (le, false)

unfoldable pub do_all : List ℕ → LessExecutor → LessExecutor
do_all [] le = le
do_all (now ∷ nows) le = do_all nows (do_or_discard now le).0

-- Calls that meet: the Load with the test, and the Set with the execution, are steps of their own.
pub data Meets (le : LessExecutor) : LessExecutor → Type 0 where
  at_first : Meets le le
  loads :
      {b : LessExecutor} (now : ℕ)
      → Meets le b
      → is_due now b ≡ true
      → Meets le (record b { passed = now ∷ b.passed })
  sets :
      {b : LessExecutor} (before after : List ℕ) (now : ℕ)
      → Meets le b
      → b.passed ≡ before ++ now ∷ after
      → Meets le (set_and_execute now (record b { passed = before ++ after }))

-- Readings, newest first, each more than t after the one before, with the last one.
pub data IsSpaced (t : ℕ) : ℕ → List ℕ → Type 0 where
  none_yet : IsSpaced t 0 []
  after_last :
      {l : ℕ} {xs : List ℕ} (now : ℕ)
      → IsSpaced t l xs
      → 0 < now
      → (xs ≡ []) ⊎ (l + t < now)
      → IsSpaced t now (now ∷ xs)

abbrev pub Spaces : LessExecutor → Type 0
Spaces le = IsSpaced le.threshold le.last_time le.executed

abbrev pub ArePositive : List ℕ → Type 0
ArePositive [] = Unit {0}
ArePositive (now ∷ nows) = (0 < now) × ArePositive nows

IsSpaced-positive : {t l : ℕ} {xs : List ℕ} → IsSpaced t l xs → (xs ≡ []) ⊎ (0 < l)
IsSpaced-positive none_yet = inl refl
IsSpaced-positive (after_last now r h s) = inr h

due_after :
    {xs : List ℕ} (t l now : ℕ)
    → (xs ≡ []) ⊎ (0 < l)
    → ((l == 0) || ltb (l + t) now) ≡ true
    → (xs ≡ []) ⊎ (l + t < now)
due_after t l now (inl empty) h = inl empty
due_after t l now (inr pos) h = inr (ground arith)

do_or_discard-Spaces :
    (now : ℕ) (le : LessExecutor) → 0 < now → Spaces le → Spaces (do_or_discard now le).0
unfolding do_or_discard
do_or_discard-Spaces now le pos v = elim (Bool-cases (is_due now le)) [
  | inl due ↦
      rw due
        (after_last now v pos (due_after le.threshold le.last_time now (IsSpaced-positive v) due))
  | inr early ↦ rw early v
]

do_all-keeps :
    (nows : List ℕ) (le : LessExecutor) → ArePositive nows → Spaces le → Spaces (do_all nows le)
unfolding do_all
do_all-keeps [] le h v = v
do_all-keeps (now ∷ nows) le (pos, h) v =
    do_all-keeps nows (do_or_discard now le).0 h (do_or_discard-Spaces now le pos v)

-- Calls of DoOrDiscard one after the other, at positive clock readings in whatever order, from a new
-- LessExecutor on: each execution comes more than the threshold after the one before.
pub do_all-Spaces :
    (threshold : ℕ) (nows : List ℕ)
    → ArePositive nows
    → Spaces (do_all nows (new_less_executor threshold))
do_all-Spaces threshold nows all_positive =
    do_all-keeps nows (new_less_executor threshold) all_positive none_yet

not_spaced : (t : ℕ) → 0 < t → ¬ IsSpaced t 2 (2 ∷ 1 ∷ [])
not_spaced t h (after_last now (after_last first r p q) p' (inr late)) = omega arith
not_spaced t h (after_last now (after_last first r p q) p' (inl none_before)) =
    absurd (omega (arith, ap length none_before))

-- For every positive threshold calls of DoOrDiscard that meet can execute within it: two calls Load
-- lastTime before either of them does Set, and both execute.
pub Meets-not_spaced :
    (threshold : ℕ)
    → 0 < threshold
    → (le : LessExecutor) × Meets (new_less_executor threshold) le × ¬ Spaces le
Meets-not_spaced t h = (
  _,
  sets [] [] 2 (sets (2 ∷ []) [] 1 (loads 2 (loads 1 at_first refl) refl) refl) refl,
  not_spaced t h,
)
