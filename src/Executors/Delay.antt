-- ===== src/Executors/Delay.antt =====
-- core/executors/delayexecutor.go: DelayExecutor, as steps of goroutines that interleave. A timer may
-- end at any time. GoSafe recovers a panic of fn.
use fastgozero.Prelude.{
  ℕ, zero, suc, ◌+◌, ◌<◌, ◌≡◌, refl, ap, ◌∙◌, ◌⊎◌, inl, inr, Bool, true, false, if◌then◌else◌,
  Bool-cases, arith,
}

-- `timers` counts the goroutines that wait for their timer, `resets` those that have reset
-- `triggered` and call fn next. `owed` says whether a Trigger came since fn was called last.
pub record DelayExecutor : Type 0 where
  pub triggered : Bool
  pub timers : ℕ
  pub resets : ℕ
  pub owed : Bool

abbrev pub new_delay_executor : DelayExecutor
new_delay_executor = record { triggered = false; timers = 0; resets = 0; owed = false }

unfoldable pub trigger : DelayExecutor → DelayExecutor
trigger de =
    if de.triggered
    then record de { owed = true }
    else record de { triggered = true; timers = de.timers + 1; owed = true }

-- A goroutine that Trigger started goes on.
pub data Continues (de : DelayExecutor) : DelayExecutor → Type 0 where
  -- <-timer.C, and triggered is reset under the lock
  reset :
      (n : ℕ)
      → de.timers ≡ suc n
      → Continues de (record de { triggered = false; timers = n; resets = de.resets + 1 })
  call_fn : (n : ℕ) → de.resets ≡ suc n → Continues de (record de { resets = n; owed = false })

pub data Calls (de : DelayExecutor) : DelayExecutor → Type 0 where
  none_yet : Calls de de
  continues : {b c : DelayExecutor} → Calls de b → Continues b c → Calls de c
  triggers : {b : DelayExecutor} → Calls de b → Calls de (trigger b)

abbrev pub waits : Bool → ℕ
waits true = 1
waits false = 0

pub record IsTimed (de : DelayExecutor) : Type 0 where
  pub one_timer : de.timers ≡ waits de.triggered
  pub kept : (de.owed ≡ false) ⊎ (0 < de.timers + de.resets)

trigger-IsTimed : (de : DelayExecutor) → IsTimed de → IsTimed (trigger de)
unfolding trigger
trigger-IsTimed de v = elim (Bool-cases de.triggered) [
  | inl there ↦ rw there (record {
    one_timer = v.one_timer ∙ ap waits there;
    kept = inr (omega (arith, v.one_timer, ap waits there));
  })
  | inr missing ↦ rw missing (record {
    one_timer = omega (arith, v.one_timer, ap waits missing);
    kept = inr (omega arith);
  })
]

waits-le : (b : Bool) → waits b < 2
waits-le true = omega arith
waits-le false = omega arith

Continues-IsTimed : {b c : DelayExecutor} → Continues b c → IsTimed b → IsTimed c
Continues-IsTimed {b} (reset n p) v = record {
  one_timer = omega (arith, v.one_timer, waits-le b.triggered);
  kept = inr (omega arith);
}
Continues-IsTimed {b} (call_fn n p) v = record { one_timer = v.one_timer; kept = inl refl }

Calls-IsTimed : {de : DelayExecutor} → Calls new_delay_executor de → IsTimed de
Calls-IsTimed none_yet = record { one_timer = refl; kept = inl refl }
Calls-IsTimed (continues r s) = Continues-IsTimed s (Calls-IsTimed r)
Calls-IsTimed (triggers {b} r) = trigger-IsTimed b (Calls-IsTimed r)

-- Steps without another Trigger.
pub data Goroutines (de : DelayExecutor) : DelayExecutor → Type 0 where
  at_rest : Goroutines de de
  later : {b c : DelayExecutor} → Goroutines de b → Continues b c → Goroutines de c

abbrev pub IsServed : DelayExecutor → Type 0
IsServed de = (b : DelayExecutor) × Goroutines de b × (b.owed ≡ false)

owed-IsServed :
    (de : DelayExecutor) (n m : ℕ) → de.timers ≡ n → de.resets ≡ m → 0 < n + m → IsServed de
owed-IsServed de n (suc m) t r h = (_, later at_rest (call_fn m r), refl)
owed-IsServed de (suc n) zero t r h =
    (_, later (later at_rest (reset n t)) (call_fn de.resets (omega arith)), refl)
owed-IsServed de zero zero t r h = absurd (omega arith)

-- However Triggers of a DelayExecutor and the goroutines they start interleave, from a new one on:
-- one timer runs while triggered is set, and none else; and if a Trigger came since fn was called
-- last, there are steps, without another Trigger, to a call of fn, so no Trigger is missed.
pub Calls-IsServed :
    (de : DelayExecutor)
    → Calls new_delay_executor de
    → (de.timers ≡ waits de.triggered) × IsServed de
Calls-IsServed de r =
    let v = Calls-IsTimed r in
    (
      v.one_timer,
      elim v.kept [
        | inl none_owed ↦ (de, at_rest, none_owed)
        | inr some_wait ↦ owed-IsServed de de.timers de.resets refl refl some_wait
      ],
    )
