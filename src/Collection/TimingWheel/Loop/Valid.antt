-- ===== src/Collection/TimingWheel/Loop/Valid.antt =====
-- The invariant of a timing wheel under its run loop (core/collection/timingwheel.go).
use fastgozero.Prelude.{
  ℕ, ◌+◌, ◌/◌, ◌%◌, ◌≤◌, ◌<◌, ◌≡◌, refl, ap, sym, ◌∙◌, List, [], ◌∷◌, inl, inr, arith, ltb, leb,
  length, get_or, set, Option-cases, Bool-cases, length-set, length-replicate,
}
use fastgozero.Prelude.Cyclic.{mod-lt'}
use fastgozero.Prelude.Maps.{lookup}
use fastgozero.Collection.TimingWheel.{
  Entry, Position, Wheel, slot_at, push_back, get_position, get_circle, move_item, move_task,
  remove_task, set_new, set_task, scan, on_tick, drain_all,
}
use fastgozero.Collection.TimingWheel.Due.{count}
use fastgozero.Collection.TimingWheel.Visit.{slot-set, count-push_back, Left, scan-Left}
use fastgozero.Collection.TimingWheel.Schedule.{IsValid, get_or-empty}
use fastgozero.Collection.TimingWheel.Loop.{
  Message, ticker_message, set_message, remove_message, move_message, drain_message, handle, run,
}

module _ {K V : Type 0} where
  -- What the invariant reads is unchanged.
  same-IsValid :
      (w w' : Wheel K V)
      → w'.interval ≡ w.interval
      → w'.ticked_pos ≡ w.ticked_pos
      → w'.num_slots ≡ w.num_slots
      → w'.slots ≡ w.slots
      → w'.next_ref ≡ w.next_ref
      → IsValid w
      → IsValid w'
  same-IsValid w w' step ticked num slots next v = record {
    some_interval = rw step v.some_interval;
    ticked_in = rw (ticked, num) v.ticked_in;
    sized = ap length slots ∙ v.sized ∙ sym num;
    fresh = λ r q h. ap (λ l. count r (get_or l q [])) slots ∙ v.fresh r q (omega (arith, h, next));
  }

  -- The next reference is given and pushed.
  pushed-IsValid :
      (p : ℕ) (w w' : Wheel K V)
      → p < w.num_slots
      → w'.interval ≡ w.interval
      → w'.ticked_pos ≡ w.ticked_pos
      → w'.num_slots ≡ w.num_slots
      → w'.slots ≡ (push_back p w.next_ref w).slots
      → w'.next_ref ≡ w.next_ref + 1
      → IsValid w
      → IsValid w'
  pushed-IsValid p w w' lt step ticked num slots next v = record {
    some_interval = rw step v.some_interval;
    ticked_in = rw (ticked, num) v.ticked_in;
    sized = ap length slots ∙ length-pushed ∙ v.sized ∙ sym num;
    fresh = λ r q h.
        ap (λ l. count r (get_or l q [])) slots
        ∙ ground (
          arith,
          count-push_back r w.next_ref p q w (rw v.sized lt),
          v.fresh r q (omega (arith, h, next)),
          next,
        );
  }
    where
      length-pushed : length (push_back p w.next_ref w).slots ≡ length w.slots
      length-pushed = unfold push_back in length-set w.slots _ _

  drain_all-IsValid : (w : Wheel K V) → IsValid w → IsValid (drain_all w).0
  unfolding drain_all
  drain_all-IsValid w v = record {
    some_interval = v.some_interval;
    ticked_in = v.ticked_in;
    sized = length-replicate w.num_slots [];
    fresh = λ r q h. ap (count r) (get_or-empty w.num_slots q) ∙ (unfold count in refl);
  }

module _ {K V : Type 0} (dec : Discrete K) where
  on_tick-IsValid : (w : Wheel K V) → IsValid w → IsValid (on_tick dec w).0
  unfolding on_tick
  on_tick-IsValid w v = record {
    some_interval = rw one.untouched.step v.some_interval;
    ticked_in = rw (one.untouched.ticked, one.untouched.num) p_lt;
    sized =
        length-set scanned.0.slots p scanned.1
        ∙ one.untouched.sized
        ∙ v.sized
        ∙ sym one.untouched.num;
    fresh = λ r q h. kept r q (omega (arith, h, one.untouched.next));
  }
    where
      p : ℕ
      p = (w.ticked_pos + 1) % w.num_slots

      p_lt : p < w.num_slots
      p_lt = mod-lt' (w.ticked_pos + 1) w.num_slots (omega (arith, v.ticked_in))

      w' : Wheel K V
      w' = record w { ticked_pos = p }

      scanned : Wheel K V × List ℕ × List (K × V)
      scanned = scan dec (slot_at w p) w'

      left : (r : ℕ) → w.next_ref ≤ r → Left dec r w' scanned
      left r h =
          scan-Left dec r (slot_at w p) w' (omega (arith, v.ticked_in)) v.sized (v.fresh r p h)

      one : Left dec w.next_ref w' scanned
      one = left w.next_ref (omega arith)

      kept :
          (r q : ℕ) → w.next_ref ≤ r → count r (get_or (set scanned.0.slots p scanned.1) q []) ≡ 0
      kept r q h =
          ap (count r) (slot-set scanned.0.slots p q scanned.1)
          ∙ ground (
            arith,
            (left r h).untouched.counts q,
            v.fresh r q h,
            (left r h).dropped,
            count_none r,
          )
        where
          count_none : (r : ℕ) → count r [] ≡ 0
          count_none r = unfold count in refl

  set_new-IsValid :
      (k : K) (v : V) (d : ℕ) (w : Wheel K V) → IsValid w → IsValid (set_new dec k v d w)
  unfolding set_new get_position
  set_new-IsValid k v d w valid =
      pushed-IsValid (get_position w d) w _
        (mod-lt' (w.ticked_pos + d / w.interval) w.num_slots (omega (arith, valid.ticked_in))) refl
        refl refl refl refl valid

  move_item-IsValid :
      (k : K) (d : ℕ) (timer : Position) (e : Entry K V) (w : Wheel K V)
      → IsValid w
      → IsValid (move_item dec k d timer e w)
  unfolding move_item get_position
  move_item-IsValid k d timer e w v = elim (Bool-cases (leb timer.pos (get_position w d))) [
    | inl fwd ↦ rw fwd (same-IsValid w _ refl refl refl refl refl v)
    | inr back ↦ elim (Bool-cases (ltb 0 (get_circle w d))) [
      | inl more ↦ rw back (rw more (same-IsValid w _ refl refl refl refl refl v))
      | inr done ↦ rw back (
          rw done (
            pushed-IsValid (get_position w d) w _
              (mod-lt' (w.ticked_pos + d / w.interval) w.num_slots (omega (arith, v.ticked_in)))
              refl refl refl refl refl v))
    ]
  ]

  move_task-IsValid : (k : K) (d : ℕ) (w : Wheel K V) → IsValid w → IsValid (move_task dec k d w).0
  unfolding move_task
  move_task-IsValid k d w v = elim (Option-cases (lookup dec k w.timers)) [
    | inl gone ↦ rw (gone, move_task) v
    | inr (timer, found) ↦ elim (Option-cases (w.heap timer.item)) [
      | inl gone ↦ rw (found, gone, move_task) v
      | inr (e, there) ↦ elim (Bool-cases (ltb d w.interval)) [
        | inl short ↦ rw (found, there, short, move_task) v
        | inr long ↦ rw (found, there, long, move_task) (move_item-IsValid k d timer e w v)
      ]
    ]
  ]

  remove_task-IsValid : (k : K) (w : Wheel K V) → IsValid w → IsValid (remove_task dec k w)
  unfolding remove_task
  remove_task-IsValid k w v = elim (Option-cases (lookup dec k w.timers)) [
    | inl gone ↦ rw (gone, remove_task) v
    | inr (timer, found) ↦ elim (Option-cases (w.heap timer.item)) [
      | inl gone ↦ rw (found, gone, remove_task) v
      | inr (e, there) ↦
          rw (found, there, remove_task) (same-IsValid w _ refl refl refl refl refl v)
    ]
  ]

  set_task-IsValid :
      (k : K) (x : V) (d : ℕ) (w : Wheel K V) → IsValid w → IsValid (set_task dec k x d w).0
  unfolding set_task
  set_task-IsValid k x d w v = elim (Option-cases (lookup dec k w.timers)) [
    | inl gone ↦ rw (gone, set_task) (set_new-IsValid k x _ w v)
    | inr (timer, found) ↦ elim (Option-cases (w.heap timer.item)) [
      | inl gone ↦ rw (found, gone, set_task) v
      | inr (e, there) ↦
          rw (found, there, set_task)
            (move_task-IsValid k _ _ (same-IsValid w _ refl refl refl refl refl v))
    ]
  ]

  pub handle-IsValid : (m : Message K V) (w : Wheel K V) → IsValid w → IsValid (handle dec m w).0
  unfolding handle
  handle-IsValid ticker_message w v = on_tick-IsValid w v
  handle-IsValid (set_message k x d) w v = set_task-IsValid k x d w v
  handle-IsValid (remove_message k) w v = remove_task-IsValid k w v
  handle-IsValid (move_message k d) w v = move_task-IsValid k d w v
  handle-IsValid drain_message w v = drain_all-IsValid w v

  -- The run loop keeps a wheel valid, whatever messages and ticks it receives: the slot that was
  -- visited last is one of the slots, and the slots hold only references that were given.
  pub run-IsValid : (ms : List (Message K V)) (w : Wheel K V) → IsValid w → IsValid (run dec ms w).0
  unfolding run
  run-IsValid [] w v = v
  run-IsValid (m ∷ ms) w v = run-IsValid ms (handle dec m w).0 (handle-IsValid m w v)
