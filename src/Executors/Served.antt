-- ===== src/Executors/Served.antt =====
-- core/executors: the goroutines that are there serve the Adds that wait and execute every task.
use mathlib.Core.Path.{subst}
use fastgozero.Prelude.{
  ℕ, zero, suc, ◌-◌, ◌≡◌, refl, ap, ◌∙◌, ◌⊎◌, inl, inr, Bool, List, [], ◌∷◌, Option, none, some,
  length, arith,
}
use fastgozero.Executors.{
  total, Executor, new_executor, Goes, tick, last_flush, goes, Steps, next, Runs, rests, runs,
}
use fastgozero.Executors.Account.{pending-none, Steps-total}
use fastgozero.Executors.Guard.{guards, sent, work, work_goes, IsGuarded, Steps-IsGuarded}

module _ {T : Type 0} (full : List T → Bool) where
  -- A run from e on without another call, which leaves nothing to do but to flush the container.
  abbrev pub Drains : Executor T → Type 0
  Drains e =
      (e' : Executor T) × Runs e e'
      × (work e' ≡ 0)
      × (e'.added ≡ e.added)
      × (e'.container ≡ e.container)

  goes_first : {e e1 e2 : Executor T} → Goes e e1 → Runs e1 e2 → Runs e e2
  goes_first g rests = runs rests g
  goes_first g (runs r s) = runs (goes_first g r) s

  Runs-append : {e e1 e2 : Executor T} → Runs e e1 → Runs e1 e2 → Runs e e2
  Runs-append r rests = r
  Runs-append r (runs q s) = runs (Runs-append r q) s

  Runs-Steps : {d e e1 : Executor T} → Steps full d e → Runs e e1 → Steps full d e1
  Runs-Steps r rests = r
  Runs-Steps r (runs q s) = next (Runs-Steps r q) (goes s)

  drains : (n : ℕ) (e : Executor T) → Steps full new_executor e → work e ≡ n → Drains e
  drains zero e r p = (e, rests, p, refl, refl)
  drains (suc n) e r p =
      let (e1, g, less, added, kept) = work_goes e (Steps-IsGuarded full e r) (omega arith) in
      let (e', run, none_left, added', kept') = drains n e1 (next r (goes g)) (omega arith) in
      (e', goes_first g run, none_left, added' ∙ added, kept' ∙ kept)

  -- Where nothing is left to do but to flush the container, some goroutine flushes it.
  flushes :
      (e : Executor T)
      → IsGuarded e
      → work e ≡ 0
      → ((e' : Executor T) × Goes e e' × (e'.added ≡ e.added) × (e'.container ≡ []))
        ⊎ (e.container ≡ [])
  flushes e v idle = elim v.left_behind [
    | inl there ↦
        inl (_, tick (e.selecting - 1) (omega (arith, v.one, ap guards there)), refl, refl)
    | inr (inl owed) ↦ inl (_, last_flush (e.quitting - 1) (omega arith), refl, refl)
    | inr (inr empty) ↦ inr empty
  ]

  -- A run from e on without another call, after which all is executed.
  abbrev pub Executes : Executor T → Type 0
  Executes e =
      (e' : Executor T) × Runs e e' × (work e' ≡ 0) × (e'.added ≡ e.added) × (e'.container ≡ [])

  executes : (e : Executor T) → Steps full new_executor e → Executes e
  executes e r =
      let (e1, run, idle, added, kept) = drains (work e) e r refl in
      let r1 = Runs-Steps r run in
      elim (flushes e1 (Steps-IsGuarded full e1 r1) idle) [
        | inl (e2, g, added2, empty) ↦
            let (e', rest, idle', added', kept') = drains (work e2) e2 (next r1 (goes g)) refl in
            (
              e',
              Runs-append run (goes_first g rest),
              idle',
              added' ∙ (added2 ∙ added),
              kept' ∙ empty,
            )
        | inr empty ↦ (e1, run, idle, added, empty)
      ]

-- The same tasks, each as often.
abbrev pub SameTasks : {T : Type 0} → List T → List T → Type 0
SameTasks {T} xs ys = (f : T → ℕ) → total f xs ≡ total f ys

-- No Add waits, and what was added is executed.
pub record IsDone {T : Type 0} (added : List T) (e : Executor T) : Type 0 where
  pub none_sends : e.sending ≡ []
  pub none_waits : e.waiting ≡ 0
  pub same_added : e.added ≡ added
  pub all_executed : SameTasks added e.executed

module _ {T : Type 0} where
  no_batch : (xs : List (List T)) → length xs ≡ 0 → xs ≡ []
  no_batch [] p = refl
  no_batch (x ∷ xs) p = absurd (omega arith)

  no_command : (c : Option (List T)) → sent c ≡ 0 → c ≡ none
  no_command none p = refl
  no_command (some vals) p = absurd (omega arith)

  work-IsDone :
      (full : List T → Bool) (e : Executor T)
      → Steps full new_executor e
      → work e ≡ 0
      → e.container ≡ []
      → IsDone e.added e
  work-IsDone full e r idle empty = record {
    none_sends = no_batch e.sending (omega arith);
    none_waits = omega (arith, (Steps-IsGuarded full e r).confirms);
    same_added = refl;
    all_executed = λ f.
        let c = no_command e.commander (omega arith) in
        let p = pending-none f e empty c (omega arith, omega arith, omega arith, omega arith) in
        omega (arith, Steps-total f full e r, p);
  }

-- In whatever state the goroutines left a PeriodicalExecutor that began as a new one, however Adds
-- and Flushes came between: there are steps from it on, without another call, to a state in which no
-- Add waits, and in which the tasks that were executed are those that were added, each as often.
pub Steps-IsDone :
    {T : Type 0} (full : List T → Bool) (e : Executor T)
    → Steps full new_executor e
    → (e' : Executor T) × Runs e e' × IsDone e.added e'
Steps-IsDone full e r =
    let (e', run, idle, same, empty) = executes full e r in
    (
      e',
      run,
      subst (λ a. IsDone a e') same (work-IsDone full e' (Runs-Steps full r run) idle empty),
    )
