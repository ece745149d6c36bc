-- ===== src/Collection/TimingWheel/Tests.antt =====
-- Runs of core/collection/timingwheel.go, with four slots and an interval of ten.
use fastgozero.Prelude.{
  ℕ, zero, suc, ◌≤◌, ◌≡◌, ◌≢◌, refl, List, [], ◌∷◌, ◌++◌, false, none, some, ◌==◌, if◌then◌else◌,
  arith, ℕ_discrete,
}
use fastgozero.Prelude.Maps.{lookup, insert, delete}
use fastgozero.Collection.TimingWheel.{
  Entry, Position, Wheel, slot_at, new_timing_wheel, set_task, move_task, remove_task, on_tick,
  drain_all, get_position,
}
use fastgozero.Collection.TimingWheel.Due.{dist, due, count, Has, Pending}
use fastgozero.Collection.TimingWheel.Fire.{Waits}
use fastgozero.Collection.TimingWheel.Schedule.{
  IsValid, initial, initial-IsValid, steps, ticks, ticks_tasks, set_task_runs,
  new_timing_wheel-IsValid,
}
use fastgozero.Collection.TimingWheel.Move.{moved_wait}
use mathlib.Core.Path.{subst, sym}
use fastgozero.Collection.TimingWheel.Silent.{NoneOf, IsOther}
use fastgozero.Collection.TimingWheel.Quiet.{IsAlone}
use fastgozero.Collection.TimingWheel.Moved.{move_task_runs, move_task_repeats}
use fastgozero.Collection.TimingWheel.Drain.{Empty, drain_all_lem, set_task_lost}
use fastgozero.Collection.TimingWheel.Sound.{LiveAt, on_tick_sound}
use fastgozero.Prelude.{◌%◌, ◌+◌, inl}
use fastgozero.Collection.TimingWheel.Loop.{
  Message, ticker_message, set_message, remove_message, move_message, drain_message, run,
}
use fastgozero.Collection.TimingWheel.Loop.Valid.{run-IsValid}

abbrev start : Wheel ℕ ℕ
start = initial 10 4

start-IsValid : IsValid start
start-IsValid = initial-IsValid 10 4 refl

abbrev entry : Entry ℕ ℕ
entry = record { delay = 60; key = 7; value = 70; circle = 1; diff = 0; removed = false }

abbrev timer : Position
timer = record { pos = 1; item = 0 }

-- After SetTimer(7, 70, 60).
abbrev waiting : Wheel ℕ ℕ
waiting = record {
  interval = 10;
  num_slots = 4;
  ticked_pos = 3;
  slots = [] ∷ (0 ∷ []) ∷ [] ∷ [] ∷ [];
  timers = (7, timer) ∷ [];
  heap = λ q. if 0 == q then some entry else none;
  next_ref = 1;
}

set_task-start : set_task ℕ_discrete 7 70 60 start ≡ (waiting, [])
unfolding set_task insert lookup
set_task-start = refl

waiting-IsValid : IsValid waiting
waiting-IsValid = record {
  some_interval = omega arith;
  ticked_in = omega arith;
  sized = refl;
  fresh = none_there;
}
  where
    none_there : (r q : ℕ) → 1 ≤ r → count r (slot_at waiting q) ≡ 0
    none_there r zero h = unfold count in refl
    none_there r (suc zero) h = unfold count in ground arith
    none_there r (suc (suc zero)) h = unfold count in refl
    none_there r (suc (suc (suc zero))) h = unfold count in refl
    none_there r (suc (suc (suc (suc q)))) h = unfold count in refl

waiting-Pending : Pending 0 1 6 entry waiting
unfolding due dist count
waiting-Pending = record {
  ticked_in = omega arith;
  sized = refl;
  pos_in = omega arith;
  held = refl;
  live = refl;
  diff_in = omega arith;
  once = refl;
  elsewhere = nowhere_else;
  waits = refl;
}
  where
    nowhere_else : (q : ℕ) → q ≢ 1 → count 0 (slot_at waiting q) ≡ 0
    nowhere_else zero ne = refl
    nowhere_else (suc zero) ne = absurd (ne refl)
    nowhere_else (suc (suc zero)) ne = refl
    nowhere_else (suc (suc (suc zero))) ne = refl
    nowhere_else (suc (suc (suc (suc q)))) ne = refl

abbrev messages : List (Message ℕ ℕ)
messages =
    set_message 1 10 20
    ∷ set_message 2 20 50
    ∷ ticker_message
    ∷ move_message 2 10
    ∷ remove_message 1
    ∷ ticker_message
    ∷ set_message 3 30 5
    ∷ drain_message
    ∷ []

-- SetTimer(7, 70, 60) runs at the sixth tick, and only there.
abbrev runs_at_sixth : List (Message ℕ ℕ)
runs_at_sixth =
    set_message 7 70 60
    ∷ ticker_message
    ∷ ticker_message
    ∷ ticker_message
    ∷ ticker_message
    ∷ ticker_message
    ∷ ticker_message
    ∷ []

run-sixth : (run ℕ_discrete runs_at_sixth start).1 ≡ (7, 70) ∷ []
unfolding run set_task on_tick insert delete lookup
run-sixth = refl

run-messages : (run ℕ_discrete messages start).1 ≡ (2, 20) ∷ (3, 30) ∷ []
unfolding run set_task on_tick move_task remove_task drain_all insert delete lookup ℕ_discrete
run-messages = refl

-- A task of slot 1 is moved to one interval after slot 1 was visited: it waits five ticks.
abbrev moved_late : List (Message ℕ ℕ)
moved_late =
    ticker_message
    ∷ ticker_message
    ∷ set_message 7 70 40
    ∷ move_message 7 10
    ∷ ticker_message
    ∷ ticker_message
    ∷ ticker_message
    ∷ ticker_message
    ∷ []

run-moved_late :
    ((run ℕ_discrete moved_late start).1 ≡ [])
    × ((run ℕ_discrete (moved_late ++ (ticker_message ∷ [])) start).1 ≡ (7, 70) ∷ [])
unfolding run set_task on_tick move_task insert delete lookup ℕ_discrete
run-moved_late = (refl, refl)

waiting-lookup : lookup ℕ_discrete 7 waiting.timers ≡ some timer
unfolding lookup ℕ_discrete
waiting-lookup = refl

start-lookup : lookup ℕ_discrete 7 start.timers ≡ none
unfolding lookup
start-lookup = refl

start-IsAlone : IsAlone 7 0 start
start-IsAlone = record { others = λ q ne. inl tt }

-- The heap holds one entry.
waiting-IsAlone : IsAlone 7 0 waiting
waiting-IsAlone = record {
  others = λ q ne.
      let gone : waiting.heap q ≡ none = ground (arith, ne) in
      inl (subst (IsOther 7) (sym gone) tt);
}

set_task_runs_example :
    let w1 = (set_task ℕ_discrete 7 70 60 start).0 in
    let w' = ticks ℕ_discrete 5 w1 in
    ((set_task ℕ_discrete 7 70 60 start).1 ≡ [])
    × NoneOf 7 (ticks_tasks ℕ_discrete 5 w1)
    × Waits ℕ_discrete 0 1 7 70 w'
    × Has (7, 70) (on_tick ℕ_discrete w').1
    × ((q : ℕ) → count 0 (slot_at (on_tick ℕ_discrete w').0 q) ≡ 0)
set_task_runs_example =
    set_task_runs ℕ_discrete 7 70 60 5 start start-IsValid start-lookup start-IsAlone
      (unfold steps in refl)

move_task_runs_example :
    let w1 = (move_task ℕ_discrete 7 120 waiting).0 in
    let w' = ticks ℕ_discrete 11 w1 in
    ((move_task ℕ_discrete 7 120 waiting).1 ≡ [])
    × NoneOf 7 (ticks_tasks ℕ_discrete 11 w1)
    × ((q : ℕ) × Waits ℕ_discrete q 1 7 70 w'
        × Has (7, 70) (on_tick ℕ_discrete w').1
        × ((i : ℕ) → count q (slot_at (on_tick ℕ_discrete w').0 i) ≡ 0))
move_task_runs_example =
    move_task_runs ℕ_discrete 7 120 0 1 6 11 entry waiting waiting-IsValid (omega arith)
      waiting-Pending refl waiting-IsAlone waiting-lookup (unfold moved_wait in refl)

move_task_repeats_example :
    ((move_task ℕ_discrete 7 5 waiting).1 ≡ (7, 70) ∷ [])
    × Has (7, 70) (on_tick ℕ_discrete (ticks ℕ_discrete 5 (move_task ℕ_discrete 7 5 waiting).0)).1
move_task_repeats_example =
    move_task_repeats ℕ_discrete 7 5 0 1 5 entry waiting (omega arith) waiting-Pending refl
      waiting-lookup

drain_all_lem_example : Has (7, 70) (drain_all waiting).1 × Empty (drain_all waiting).0
drain_all_lem_example = drain_all_lem 0 1 6 entry waiting waiting-Pending

set_task_lost_example :
    let w' = (set_task ℕ_discrete 7 71 60 (drain_all waiting).0).0 in
    (on_tick ℕ_discrete (ticks ℕ_discrete 9 w')).1 ≡ []
set_task_lost_example =
    set_task_lost ℕ_discrete 7 71 60 9 timer entry waiting waiting-lookup refl (omega arith)
      (unfold get_position in omega arith)

run-IsValid_example : IsValid (run ℕ_discrete messages start).0
run-IsValid_example = run-IsValid ℕ_discrete messages start start-IsValid

new_timing_wheel-IsValid_example :
    (w : Wheel ℕ ℕ) × (new_timing_wheel 10 4 ≡ some w) × IsValid w × (w.timers ≡ [])
new_timing_wheel-IsValid_example = new_timing_wheel-IsValid 10 4 (omega arith) (omega arith)

-- The same task, one tick before it is due.
abbrev soon : Wheel ℕ ℕ
soon = record waiting {
  ticked_pos = 0;
  heap = λ q. if 0 == q then some (record entry { circle = 0 }) else none;
}

on_tick_sound_example : (r : ℕ) × Has r (slot_at soon ((0 + 1) % 4)) × LiveAt r 7 70 soon
unfolding on_tick delete
on_tick_sound_example = on_tick_sound ℕ_discrete 7 70 soon (inl refl)
