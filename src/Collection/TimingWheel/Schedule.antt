-- ===== src/Collection/TimingWheel/Schedule.antt =====
-- SetTimer on a timing wheel (core/collection/timingwheel.go): a task runs after as many ticks as its
-- delay has intervals, not earlier and not later.
use native.Mathlib.Nat.{le-div_iff_mul-le}
use mathlib.Core.Path.{ap₂, subst, subst₂}
use fastgozero.Prelude.{
  ℕ, zero, suc, ◌+◌, ◌-◌, ◌/◌, ◌%◌, ◌≤◌, ◌<◌, ◌≡◌, ◌≢◌, refl, ap, sym, ◌∙◌, List, [], ◌++◌, ◌&&◌,
  false, none, some, arith, ◌==◌, ltb, if◌then◌else◌, length, replicate, length-replicate,
  length-set, ◌||◌, get_or,
}
use fastgozero.Prelude.Cyclic.{mod-lt'}
use fastgozero.Prelude.Maps.{lookup}
use fastgozero.Collection.TimingWheel.{
  Entry, Wheel, slot_at, new_timing_wheel, push_back, get_circle, set_new, set_task, on_tick,
}
use fastgozero.Collection.TimingWheel.Due.{due, due_steps, count, Has, Pending}
use fastgozero.Collection.TimingWheel.Visit.{count-push_back}
use fastgozero.Collection.TimingWheel.Fire.{Waits, on_tick-Waits, on_tick-runs}
use fastgozero.Collection.TimingWheel.Silent.{NoneOf}
use fastgozero.Collection.TimingWheel.Quiet.{
  IsAlone, push_back-IsAlone, NoneOf-append, on_tick-NoneOf, on_tick-IsAlone,
}

-- A wheel of positive size whose slots hold only references that were given.
pub record IsValid {K V : Type 0} (w : Wheel K V) : Type 0 where
  pub some_interval : 0 < w.interval
  pub ticked_in : w.ticked_pos < w.num_slots
  pub sized : length w.slots ≡ w.num_slots
  pub fresh : (r q : ℕ) → w.next_ref ≤ r → count r (slot_at w q) ≡ 0

pub get_or-empty : (n q : ℕ) → get_or (replicate {A = List ℕ} n []) q [] ≡ []
get_or-empty zero q = refl
get_or-empty (suc n) zero = refl
get_or-empty (suc n) (suc q) = get_or-empty n q

module _ {K V : Type 0} where
  -- What pushes a new entry with its position and circle: it waits as many ticks as `s` steps.
  pub pushed-Pending :
      (s : ℕ) (e : Entry K V) (w w' : Wheel K V)
      → IsValid w
      → 0 < s
      → e.circle ≡ (s - 1) / w.num_slots
      → e.diff ≡ 0
      → e.removed ≡ false
      → w'.ticked_pos ≡ w.ticked_pos
      → w'.num_slots ≡ w.num_slots
      → w'.heap w.next_ref ≡ some e
      → w'.slots ≡ (push_back ((w.ticked_pos + s) % w.num_slots) w.next_ref w).slots
      → Pending w.next_ref ((w.ticked_pos + s) % w.num_slots) s e w'
  pushed-Pending s e w w' v pos circle diff live ticked num held slots = record {
    ticked_in = rw (ticked, num) v.ticked_in;
    sized = ap length slots ∙ length-pushed ∙ v.sized ∙ sym num;
    pos_in = rw num p_lt;
    held = held;
    live = live;
    diff_in = rw (diff, num) (omega (arith, v.ticked_in));
    once = ap (λ l. count w.next_ref (get_or l p [])) slots ∙ counts p ∙ here;
    elsewhere = λ q ne. ap (λ l. count w.next_ref (get_or l q [])) slots ∙ counts q ∙ away q ne;
    waits =
        ap₂ (λ n t. due n t p e.circle e.diff) num ticked
        ∙ ap₂ (λ c d. due w.num_slots w.ticked_pos p c d) circle diff
        ∙ due_steps w.num_slots w.ticked_pos s v.ticked_in pos;
  }
    where
      p : ℕ
      p = (w.ticked_pos + s) % w.num_slots

      p_lt : p < w.num_slots
      p_lt = mod-lt' (w.ticked_pos + s) w.num_slots (omega (arith, v.ticked_in))

      length-pushed : length (push_back p w.next_ref w).slots ≡ length w.slots
      length-pushed = unfold push_back in length-set w.slots _ _

      counts :
          (q : ℕ)
          → count w.next_ref (slot_at (push_back p w.next_ref w) q)
            ≡ (if p == q && w.next_ref == w.next_ref then 1 else 0)
      counts q = ground (
        arith,
        count-push_back w.next_ref w.next_ref p q w (rw v.sized p_lt),
        v.fresh w.next_ref q (omega arith),
      )

      here : ◌≡◌ {A = ℕ} (if p == p && w.next_ref == w.next_ref then 1 else 0) 1
      here = ground arith

      away : (q : ℕ) → q ≢ p → ◌≡◌ {A = ℕ} (if p == q && w.next_ref == w.next_ref then 1 else 0) 0
      away q ne = ground arith

module _ {K V : Type 0} (dec : Discrete K) where
  -- The delay that setTask counts with, in whole intervals.
  unfoldable pub steps : Wheel K V → ℕ → ℕ
  steps w d = (if ltb d w.interval then w.interval else d) / w.interval

  steps-pos : (w : Wheel K V) (d : ℕ) → 0 < w.interval → 0 < steps w d
  unfolding steps
  steps-pos w d h = (le-div_iff_mul-le {k = w.interval} {x = 1} h).1 (ground arith)

  -- SetTimer for a new key: the task is in one slot, and waits as many ticks as its delay has
  -- intervals, one at least.
  pub set_task-Waits :
      (k : K) (v : V) (d : ℕ) (w : Wheel K V)
      → IsValid w
      → lookup dec k w.timers ≡ none
      → Waits dec w.next_ref (steps w d) k v (set_task dec k v d w).0
  unfolding set_task
  set_task-Waits k v d w valid new =
      rw (new, set_task)
        (record {
          slot = (w.ticked_pos + steps w d) % w.num_slots;
          entry = task;
          pending =
              pushed-Pending (steps w d) task w (set_new dec k v delay w) valid
                (steps-pos w d valid.some_interval) (unfold get_circle steps in refl) refl refl
                (unfold set_new in refl) (unfold set_new in refl) (unfold set_new in ground arith)
                (unfold set_new steps in refl);
          same_key = refl;
          same_value = refl;
        })
    where
      delay : ℕ
      delay = if ltb d w.interval then w.interval else d

      task : Entry K V
      task = record {
        delay = delay;
        key = k;
        value = v;
        circle = get_circle w delay;
        diff = 0;
        removed = false;
      }

  -- `j` ticks in a row.
  unfoldable pub ticks : ℕ → Wheel K V → Wheel K V
  ticks zero w = w
  ticks (suc j) w = ticks j (on_tick dec w).0

  tick_on :
      (j d r : ℕ) (k : K) (v : V) (w : Wheel K V)
      → Waits dec r (suc j + suc d) k v w
      → Waits dec r (j + suc d) k v (on_tick dec w).0
  tick_on j d r k v w t =
      let p =
        subst (λ n. Pending r t.slot n t.entry w) {x = suc j + suc d} {y = suc (j + suc d)}
          (omega arith) t.pending in
      let n = on_tick-Waits dec r t.slot t.entry w (j + suc d) p (omega arith) in
      record {
        slot = n.slot;
        entry = n.entry;
        pending = n.pending;
        same_key = n.same_key ∙ t.same_key;
        same_value = n.same_value ∙ t.same_value;
      }

  ticks-Waits :
      (j d r : ℕ) (k : K) (v : V) (w : Wheel K V)
      → Waits dec r (j + suc d) k v w
      → Waits dec r (suc d) k v (ticks j w)
  unfolding ticks
  ticks-Waits zero d r k v w h =
      subst (λ n. Waits dec r n k v w) {x = 0 + suc d} {y = suc d} (omega arith) h
  ticks-Waits (suc j) d r k v w h = ticks-Waits j d r k v (on_tick dec w).0 (tick_on j d r k v w h)

  -- A task that waits `j + 1` ticks is still in its slot, and waits, after `j` of them; the next
  -- tick runs it and leaves it in no slot.
  pub ticks_run :
      (j r : ℕ) (k : K) (v : V) (w : Wheel K V)
      → Waits dec r (suc j) k v w
      → Waits dec r 1 k v (ticks j w)
        × Has (k, v) (on_tick dec (ticks j w)).1
        × ((q : ℕ) → count r (slot_at (on_tick dec (ticks j w)).0 q) ≡ 0)
  ticks_run j r k v w h =
      let t =
        ticks-Waits j 0 r k v w
          (subst (λ n. Waits dec r n k v w) {x = suc j} {y = j + 1} (omega arith) h) in
      let f = on_tick-runs dec r t.slot t.entry (ticks j w) t.pending in
      (t, subst₂ (λ a b. Has (a, b) (on_tick dec (ticks j w)).1) t.same_key t.same_value f.0, f.1)

  -- What `j` ticks in a row run.
  unfoldable pub ticks_tasks : ℕ → Wheel K V → List (K × V)
  ticks_tasks zero w = []
  ticks_tasks (suc j) w = (on_tick dec w).1 ++ ticks_tasks j (on_tick dec w).0

  -- While the one task of a key waits, ticks run no task of the key.
  pub ticks-NoneOf :
      (j d r : ℕ) (k : K) (v : V) (w : Wheel K V)
      → Waits dec r (j + suc d) k v w
      → IsAlone k r w
      → NoneOf k (ticks_tasks j w)
  unfolding ticks_tasks
  ticks-NoneOf zero d r k v w h alone = tt
  ticks-NoneOf (suc j) d r k v w h alone =
      let p =
        subst (λ n. Pending r h.slot n h.entry w) {x = suc j + suc d} {y = suc (j + suc d)}
          (omega arith) h.pending in
      NoneOf-append k (on_tick dec w).1 (ticks_tasks j (on_tick dec w).0)
        (on_tick-NoneOf dec k r h.slot h.entry w (j + suc d) p (omega arith) alone)
        (ticks-NoneOf j d r k v (on_tick dec w).0 (tick_on j d r k v w h)
          (on_tick-IsAlone dec k r h.slot h.entry w (suc (j + suc d)) p alone))

  -- SetTimer for a new key leaves its task alone.
  set_task-IsAlone :
      (k : K) (v : V) (d : ℕ) (w : Wheel K V)
      → IsValid w
      → lookup dec k w.timers ≡ none
      → IsAlone k w.next_ref w
      → IsAlone k w.next_ref (set_task dec k v d w).0
  unfolding set_task
  set_task-IsAlone k v d w valid new alone =
      rw (new, set_task)
        (push_back-IsAlone k w.next_ref ((w.ticked_pos + steps w d) % w.num_slots) w
          (set_new dec k v (if ltb d w.interval then w.interval else d) w)
          (rw valid.sized
            (mod-lt' (w.ticked_pos + steps w d) w.num_slots (omega (arith, valid.ticked_in))))
          (λ q ne. unfold set_new in ground (arith, ne)) (unfold set_new steps in refl) alone)

  -- SetTimer for a new key on a valid wheel in whose slots no task of the key waits, which is not
  -- removed: with a delay of `j + 1` intervals (of one, if the delay is shorter than that), nothing
  -- runs at once, the task waits through the next `j` ticks, which run no task of the key, and the
  -- tick after them runs it and leaves it in no slot.
  pub set_task_runs :
      (k : K) (v : V) (d j : ℕ) (w : Wheel K V)
      → IsValid w
      → lookup dec k w.timers ≡ none
      → IsAlone k w.next_ref w
      → steps w d ≡ suc j
      → let w1 = (set_task dec k v d w).0 in
        let w' = ticks j w1 in
        ((set_task dec k v d w).1 ≡ [])
        × NoneOf k (ticks_tasks j w1)
        × Waits dec w.next_ref 1 k v w'
        × Has (k, v) (on_tick dec w').1
        × ((q : ℕ) → count w.next_ref (slot_at (on_tick dec w').0 q) ≡ 0)
  set_task_runs k v d j w valid new alone e =
      let waits =
        subst (λ n. Waits dec w.next_ref n k v (set_task dec k v d w).0) e
          (set_task-Waits k v d w valid new) in
      let run = ticks_run j w.next_ref k v (set_task dec k v d w).0 waits in
      (
        unfold set_task in rw (new, set_task) refl,
        ticks-NoneOf j 0 w.next_ref k v (set_task dec k v d w).0
            (subst (λ n. Waits dec w.next_ref n k v (set_task dec k v d w).0) {x = suc j}
              {y = j + 1} (omega arith) waits)
            (set_task-IsAlone k v d w valid new alone),
        run.0,
        run.1,
        run.2,
      )

module _ {K V : Type 0} where
  -- The wheel that NewTimingWheel makes.
  abbrev pub initial : ℕ → ℕ → Wheel K V
  initial interval num_slots = record {
    interval = interval;
    num_slots = num_slots;
    ticked_pos = num_slots - 1;
    slots = replicate num_slots [];
    timers = [];
    heap = λ r. none;
    next_ref = 0;
  }

  pub initial-IsValid :
      (interval num_slots : ℕ)
      → (interval == 0 || num_slots == 0) ≡ false
      → IsValid (initial interval num_slots)
  initial-IsValid interval num_slots e = record {
    some_interval = ground arith;
    ticked_in = ground arith;
    sized = length-replicate num_slots [];
    fresh = λ r q h. ap (count r) (get_or-empty num_slots q) ∙ (unfold count in refl);
  }

  -- NewTimingWheel accepts every positive interval and number of slots, and makes a valid wheel.
  pub new_timing_wheel-IsValid :
      (interval num_slots : ℕ)
      → 0 < interval
      → 0 < num_slots
      → (w : Wheel K V) × (new_timing_wheel interval num_slots ≡ some w)
        × IsValid w
        × (w.timers ≡ [])
  unfolding new_timing_wheel
  new_timing_wheel-IsValid interval num_slots hi hn =
      let e : (interval == 0 || num_slots == 0) ≡ false = ground arith in
      (initial interval num_slots, rw e, initial-IsValid interval num_slots e, refl)
