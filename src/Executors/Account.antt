-- ===== src/Executors/Account.antt =====
-- core/executors: every task that is added is in one place at a time, so it is executed once.
use fastgozero.Prelude.{
  ℕ, ◌+◌, ◌≡◌, refl, inl, inr, Bool, List, [], ◌∷◌, ◌++◌, Option, none, some, length, Bool-cases,
  arith,
}
use fastgozero.Executors.{
  total, Executor, new_executor, add_task, ensure_guard, add_and_check, Goes, send, start, receive,
  confirm, execute, tick, quit, last_flush, finish, Step, goes, add_call, flush_call, Steps, here,
  next,
}

module _ {T : Type 0} (f : T → ℕ) where
  pub total-append : (xs ys : List T) → total f (xs ++ ys) ≡ total f xs + total f ys
  unfolding total
  total-append [] ys = omega arith
  total-append (x ∷ xs) ys = omega (arith, total-append xs ys)

  pub total_all : List (List T) → ℕ
  total_all [] = 0
  total_all (xs ∷ xss) = total f xs + total_all xss

  total_all-split :
      (before after : List (List T)) (vals : List T)
      → total_all (before ++ vals ∷ after) ≡ total f vals + total_all (before ++ after)
  unfolding total_all
  total_all-split [] after vals = refl
  total_all-split (b ∷ before) after vals = omega (arith, total_all-split before after vals)

  pub total_some : Option (List T) → ℕ
  total_some none = 0
  total_some (some xs) = total f xs

  -- All tasks that wait somewhere or are being executed.
  pub pending : Executor T → ℕ
  pending e =
      total f e.container
      + total_some e.commander
      + total_all e.sending
      + total_all e.confirming
      + total_all e.executing
      + total_all e.flushing

  total_all-none : (xss : List (List T)) → length xss ≡ 0 → total_all xss ≡ 0
  unfolding total_all
  total_all-none [] p = refl
  total_all-none (xs ∷ xss) p = absurd (omega arith)

  -- Nothing waits where every place is empty.
  pub pending-none :
      (e : Executor T)
      → e.container ≡ []
      → e.commander ≡ none
      → (length e.sending ≡ 0)
        × (length e.confirming ≡ 0)
        × (length e.executing ≡ 0)
        × (length e.flushing ≡ 0)
      → pending e ≡ 0
  unfolding pending total total_some
  pending-none e p q (s, c, x, y) =
      rw (p, q)
        (omega (
          arith,
          total_all-none e.sending s,
          total_all-none e.confirming c,
          total_all-none e.executing x,
          total_all-none e.flushing y,
        ))

  Goes_keeps :
      {e e' : Executor T}
      → Goes e e'
      → (pending e' + total f e'.executed ≡ pending e + total f e.executed) × (e'.added ≡ e.added)
  unfolding pending total_all total_some total
  Goes_keeps {e} (send before after vals p q) =
      rw (p, q) (omega (arith, total_all-split before after vals), refl)
  Goes_keeps {e} (start n p) = (refl, refl)
  Goes_keeps {e} (receive n vals p q) = rw q (omega arith, refl)
  Goes_keeps {e} (confirm n before after vals p q) =
      rw p (omega (arith, total_all-split before after vals), refl)
  Goes_keeps {e} (execute before after vals p) =
      rw p (omega (arith, total_all-split before after vals, total-append e.executed vals), refl)
  Goes_keeps {e} (tick n p) = (omega arith, refl)
  Goes_keeps {e} (quit n p q) = (refl, refl)
  Goes_keeps {e} (last_flush n p) = (omega arith, refl)
  Goes_keeps {e} (finish before after vals p) =
      rw p (omega (arith, total_all-split before after vals, total-append e.executed vals), refl)

  -- Add puts the task where it waits.
  add_task_keeps :
      (full : List T → Bool) (task : T) (e : Executor T)
      → (pending (add_task full task e) ≡ pending e + f task)
        × ((add_task full task e).executed ≡ e.executed)
        × ((add_task full task e).added ≡ e.added)
  unfolding add_task pending total_all total
  add_task_keeps full task e = elim (Bool-cases (full (e.container ++ task ∷ []))) [
    | inl now ↦ rw now (omega (arith, total-append e.container (task ∷ [])), refl, refl)
    | inr later ↦ rw later (omega (arith, total-append e.container (task ∷ [])), refl, refl)
  ]

  ensure_guard_keeps :
      (e : Executor T)
      → (pending (ensure_guard e) ≡ pending e)
        × ((ensure_guard e).executed ≡ e.executed)
        × ((ensure_guard e).added ≡ e.added)
  unfolding ensure_guard pending
  ensure_guard_keeps e = elim (Bool-cases e.guarded) [
    | inl there ↦ rw there (refl, refl, refl)
    | inr missing ↦ rw missing (refl, refl, refl)
  ]

  abbrev Accounted : Executor T → Type 0
  Accounted e = total f e.added ≡ pending e + total f e.executed

  add_and_check-Accounted :
      (full : List T → Bool) (task : T) (e : Executor T)
      → Accounted e
      → Accounted (add_and_check full task e)
  unfolding add_and_check total
  add_and_check-Accounted full task e h =
      let e1 = record e { added = e.added ++ task ∷ [] } in
      let a = add_task_keeps full task e1 in
      let g = ensure_guard_keeps (add_task full task e1) in
      let p : pending e1 ≡ pending e = unfold pending in refl in
      let t = total-append e.added (task ∷ []) in
      rw (g.0, g.1, g.2, a.0, a.1, a.2, p) (omega (arith, t))

  flush_call-Accounted :
      (e : Executor T)
      → Accounted e
      → Accounted (record e { container = []; flushing = e.container ∷ e.flushing })
  unfolding pending total_all total
  flush_call-Accounted e h = omega arith

  Step-Accounted :
      {full : List T → Bool} {e e' : Executor T} → Step full e e' → Accounted e → Accounted e'
  unfolding total pending
  Step-Accounted (goes g) h = let (k, same) = Goes_keeps g in rw same (omega arith)
  Step-Accounted {full} {e} (add_call task) h = add_and_check-Accounted full task e h
  Step-Accounted {full} {e} flush_call h = flush_call-Accounted e h

-- Whatever the goroutines of a PeriodicalExecutor do, from a new one on, and for every measure of
-- tasks (so for the number of times that a task occurs): what was added is what waits or is being
-- executed, plus what was executed.
pub Steps-total :
    {T : Type 0} (f : T → ℕ) (full : List T → Bool) (e : Executor T)
    → Steps full new_executor e
    → total f e.added ≡ pending f e + total f e.executed
Steps-total f full e here = unfold pending total total_all total_some in refl
Steps-total f full e (next r s) = Step-Accounted f s (Steps-total f full _ r)
