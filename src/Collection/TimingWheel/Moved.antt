-- ===== src/Collection/TimingWheel/Moved.antt =====
-- MoveTimer on a timing wheel (core/collection/timingwheel.go) and the ticks after it.
use mathlib.Core.Path.{subst}
use fastgozero.Prelude.{ℕ, suc, ◌+◌, ◌/◌, ◌≤◌, ◌<◌, ◌≡◌, refl, ap, [], ◌∷◌, true, some, arith, ltb}
use fastgozero.Prelude.Maps.{lookup}
use fastgozero.Collection.TimingWheel.{Entry, Wheel, slot_at, move_task, on_tick}
use fastgozero.Collection.TimingWheel.Due.{count, Has, Pending}
use fastgozero.Collection.TimingWheel.Fire.{Waits}
use fastgozero.Collection.TimingWheel.Schedule.{
  IsValid, ticks, ticks_run, ticks_tasks, ticks-NoneOf,
}
use fastgozero.Collection.TimingWheel.Silent.{NoneOf}
use fastgozero.Collection.TimingWheel.Quiet.{IsAlone}
use fastgozero.Collection.TimingWheel.Move.{moved_wait, move_task-Waits}

module _ {K V : Type 0} (dec : Discrete K) where
  -- MoveTimer for the key of an entry that waits in slot `p`, and is alone in the slots with a task of
  -- the key that is not removed, to a delay of `s` intervals, one at least: nothing runs at once, the
  -- task waits through the next `j` ticks, which run no task of the key, and the tick after them runs
  -- it and leaves its entry in no slot, where `j + 1` is `moved_wait` of the slots, the slot that was
  -- visited last, `p` and `s`.
  pub move_task_runs :
      (k : K) (d r p old j : ℕ) (e : Entry K V) (w : Wheel K V)
      → IsValid w
      → w.interval ≤ d
      → Pending r p old e w
      → e.key ≡ k
      → IsAlone k r w
      → lookup dec k w.timers ≡ some (record { pos = p; item = r })
      → moved_wait w.num_slots w.ticked_pos p (d / w.interval) ≡ suc j
      → let w1 = (move_task dec k d w).0 in
        let w' = ticks dec j w1 in
        ((move_task dec k d w).1 ≡ [])
        × NoneOf k (ticks_tasks dec j w1)
        × ((q : ℕ) × Waits dec q 1 k e.value w'
            × Has (k, e.value) (on_tick dec w').1
            × ((i : ℕ) → count q (slot_at (on_tick dec w').0 i) ≡ 0))
  move_task_runs k d r p old j e w valid le h same alone timer ej =
      let ((q, waits, still), at_once) =
        move_task-Waits dec k d r p old e w valid le h same alone h.held timer in
      let w1 = (move_task dec k d w).0 in
      let in_time = subst (λ n. Waits dec q n k e.value w1) ej waits in
      let run = ticks_run dec j q k e.value w1 in_time in
      let silent =
        ticks-NoneOf dec j 0 q k e.value w1
          (subst (λ n. Waits dec q n k e.value w1) {x = suc j} {y = j + 1} (omega arith) in_time)
          still in
      (at_once, silent, (q, run.0, run.1, run.2))

  -- MoveTimer to less than one interval runs the task at once and leaves it where it is: it runs
  -- again when it was due.
  pub move_task_repeats :
      (k : K) (d r p j : ℕ) (e : Entry K V) (w : Wheel K V)
      → d < w.interval
      → Pending r p (suc j) e w
      → e.key ≡ k
      → lookup dec k w.timers ≡ some (record { pos = p; item = r })
      → ((move_task dec k d w).1 ≡ (k, e.value) ∷ [])
        × Has (k, e.value) (on_tick dec (ticks dec j (move_task dec k d w).0)).1
  move_task_repeats k d r p j e w lt h same timer =
      let short : ltb d w.interval ≡ true = ground (arith, lt) in
      let waits : Waits dec r (suc j) k e.value w = record {
        slot = p;
        entry = e;
        pending = h;
        same_key = same;
        same_value = refl;
      } in
      unfold move_task in
      rw (timer, h.held, short, move_task)
        (ap (λ x. (x, e.value) ∷ []) same, (ticks_run dec j r k e.value w waits).1)
