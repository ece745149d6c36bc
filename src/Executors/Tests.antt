-- ===== src/Executors/Tests.antt =====
-- core/executors: runs of an executor of bulks, and the theorems at them.
use fastgozero.Prelude.{ℕ, ◌+◌, ◌≡◌, refl, true, false, [], ◌∷◌}
use fastgozero.Executors.{
  total, bulk_full, chunk_full, Executor, new_executor, add_task, ensure_guard, add_and_check,
  add_call, Steps, Runs, here, next,
}
use fastgozero.Executors.Account.{pending, Steps-total}
use fastgozero.Executors.Delay.{
  DelayExecutor, new_delay_executor, trigger, none_yet, triggers, waits, IsServed, Calls-IsServed,
}
use fastgozero.Executors.Less.{new_less_executor, do_or_discard, do_all}
use fastgozero.Executors.Served.{IsDone, Steps-IsDone}

abbrev one_added : Executor ℕ
one_added = add_and_check (bulk_full 1) 5 new_executor

one_added-Steps : Steps (bulk_full 1) new_executor one_added
one_added-Steps = next here (add_call 5)

one_added_sends : one_added.sending ≡ (5 ∷ []) ∷ []
unfolding add_and_check add_task ensure_guard bulk_full
one_added_sends = refl

one_added_guarded : one_added.guarded ≡ true
unfolding add_and_check add_task ensure_guard bulk_full
one_added_guarded = refl

bulk_waits : bulk_full {T = ℕ} 3 (5 ∷ 6 ∷ []) ≡ false
unfolding bulk_full
bulk_waits = refl

chunk_flushes : chunk_full 10 ((true, 4) ∷ (false, 6) ∷ []) ≡ true
unfolding chunk_full total
chunk_flushes = refl

Steps-total_example :
    total (λ x. x) one_added.added ≡ pending (λ x. x) one_added + total (λ x. x) one_added.executed
Steps-total_example = Steps-total (λ x. x) (bulk_full 1) one_added one_added-Steps

Steps-IsDone_example : (e' : Executor ℕ) × Runs one_added e' × IsDone one_added.added e'
Steps-IsDone_example = Steps-IsDone (bulk_full 1) one_added one_added-Steps

abbrev triggered_twice : DelayExecutor
triggered_twice = trigger (trigger new_delay_executor)

Calls-IsServed_example :
    (triggered_twice.timers ≡ waits triggered_twice.triggered) × IsServed triggered_twice
Calls-IsServed_example = Calls-IsServed triggered_twice (triggers (triggers none_yet))

triggered_twice_owes :
    triggered_twice ≡ record { triggered = true; timers = 1; resets = 0; owed = true }
unfolding trigger
triggered_twice_owes = refl

less_calls : (do_all (1 ∷ 5 ∷ 12 ∷ []) (new_less_executor 10)).executed ≡ 12 ∷ 1 ∷ []
unfolding do_all do_or_discard
less_calls = refl
