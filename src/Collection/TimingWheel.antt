-- ===== src/Collection/TimingWheel.antt =====
-- core/collection/timingwheel.go: TimingWheel. Its run loop takes one message at a time, so each
-- handler is one function from the wheel to the wheel and the tasks that it executes. Entries are
-- pointers in the source, shared by a slot and the timers: here they stand in a heap, and the slots
-- and timers hold references. The timers, a SafeMap in the source, are one map here.
-- Delays are in the unit of the interval; a delay of at least one interval is what SetTimer and
-- MoveTimer let through to the positions.
pub mod Due
pub mod Visit
pub mod Meet
pub mod Tick
pub mod Fire
pub mod Silent
pub mod Quiet
pub mod Schedule
pub mod Move
pub mod Moved
pub mod Drain
pub mod Sound
pub mod Loop
mod Tests
use fastgozero.Prelude.{
  ℕ, zero, suc, ◌+◌, ◌-◌, ◌/◌, ◌%◌, List, [], ◌∷◌, ◌++◌, Bool, true, false, ◌||◌, Option, none,
  some, ltb, leb, ◌==◌, if◌then◌else◌, get_or, set, replicate,
}
use fastgozero.Prelude.Maps.{lookup, insert, delete}

-- timingEntry with its baseEntry
pub record Entry (K V : Type 0) : Type 0 where
  pub delay : ℕ
  pub key : K
  pub value : V
  pub circle : ℕ
  pub diff : ℕ
  pub removed : Bool

-- positionEntry: the slot, and the reference of the item
pub record Position : Type 0 where
  pub pos : ℕ
  pub item : ℕ

pub record Wheel (K V : Type 0) : Type 0 where
  pub interval : ℕ
  pub num_slots : ℕ
  pub ticked_pos : ℕ
  pub slots : List (List ℕ)
  pub timers : List (K × Position)
  pub heap : ℕ → Option (Entry K V)
  pub next_ref : ℕ

-- What a handler leaves, and the tasks that it hands to execute.
abbrev pub Handled : (K V : Type 0) → Type 0
Handled K V = Wheel K V × List (K × V)

-- NewTimingWheel and initSlots; `none` is the error.
unfoldable pub new_timing_wheel : {K V : Type 0} → ℕ → ℕ → Option (Wheel K V)
new_timing_wheel interval num_slots =
    if interval == 0 || num_slots == 0
    then none
    else some (record {
      interval = interval;
      num_slots = num_slots;
      ticked_pos = num_slots - 1;
      slots = replicate num_slots [];
      timers = [];
      heap = λ r. none;
      next_ref = 0;
    })

module _ {K V : Type 0} where
  abbrev pub slot_at : Wheel K V → ℕ → List ℕ
  slot_at w p = get_or w.slots p []

  -- A write through a reference.
  unfoldable pub store : ℕ → Entry K V → Wheel K V → Wheel K V
  store r e w = record w { heap = λ q. if r == q then some e else w.heap q }

  -- `tw.slots[pos].PushBack(item)`
  unfoldable pub push_back : ℕ → ℕ → Wheel K V → Wheel K V
  push_back p r w = record w { slots = set w.slots p (slot_at w p ++ (r ∷ [])) }

  -- The allocation of an entry: its reference is the next one.
  unfoldable pub allocate : Entry K V → Wheel K V → Wheel K V
  unfolding store
  allocate e w = let w' = store w.next_ref e w in record w' { next_ref = w.next_ref + 1 }

  -- getPositionAndCircle
  unfoldable pub get_position : Wheel K V → ℕ → ℕ
  get_position w d = (w.ticked_pos + d / w.interval) % w.num_slots

  unfoldable pub get_circle : Wheel K V → ℕ → ℕ
  get_circle w d = (d / w.interval - 1) / w.num_slots

module _ {K V : Type 0} (dec : Discrete K) where
  -- setTimerPosition. The position entry is reached through the timers only, so a write to its
  -- fields and a new one are the same.
  unfoldable pub set_timer_position : ℕ → ℕ → K → Wheel K V → Wheel K V
  set_timer_position p r k w = record w {
    timers = insert dec k (record { pos = p; item = r }) w.timers;
  }

  -- The end of moveTask, for the timer of the key and its item.
  unfoldable pub move_item : K → ℕ → Position → Entry K V → Wheel K V → Wheel K V
  unfolding store push_back allocate get_position get_circle set_timer_position
  move_item k d timer item w =
      let pos = get_position w d in
      let circle = get_circle w d in
      if leb timer.pos pos
      then store timer.item (record item { circle = circle; diff = pos - timer.pos }) w
      else (if ltb 0 circle
          then store timer.item
              (record item { circle = circle - 1; diff = w.num_slots + pos - timer.pos }) w
          else (let w1 = store timer.item (record item { removed = true }) w in
              let fresh : Entry K V = record {
                delay = d;
                key = k;
                value = item.value;
                circle = 0;
                diff = 0;
                removed = false;
              } in
              let w2 = push_back pos w1.next_ref (allocate fresh w1) in
              set_timer_position pos w1.next_ref k w2))

  -- moveTask. An item that the heap does not hold would be a nil pointer.
  unfoldable pub move_task : K → ℕ → Wheel K V → Handled K V
  unfolding move_item
  move_task k d w = elim (lookup dec k w.timers) [
    | none ↦ (w, [])
    | some timer ↦ elim (w.heap timer.item) [
      | none ↦ (w, [])
      | some item ↦
          if ltb d w.interval
          then (w, (item.key, item.value) ∷ [])
          else (move_item k d timer item w, [])
    ]
  ]

  -- removeTask
  unfoldable pub remove_task : K → Wheel K V → Wheel K V
  unfolding store
  remove_task k w = elim (lookup dec k w.timers) [
    | none ↦ w
    | some timer ↦ elim (w.heap timer.item) [
      | none ↦ w
      | some item ↦
          let w' = store timer.item (record item { removed = true }) w in
          record w' { timers = delete dec k w.timers }
    ]
  ]

  -- The new entry of setTask.
  unfoldable pub set_new : K → V → ℕ → Wheel K V → Wheel K V
  unfolding push_back allocate get_position get_circle set_timer_position
  set_new k v d w =
      let pos = get_position w d in
      let task : Entry K V = record {
        delay = d;
        key = k;
        value = v;
        circle = get_circle w d;
        diff = 0;
        removed = false;
      } in
      set_timer_position pos w.next_ref k (push_back pos w.next_ref (allocate task w))

  -- setTask
  unfoldable pub set_task : K → V → ℕ → Wheel K V → Handled K V
  unfolding store move_task set_new
  set_task k v d w =
      let delay = if ltb d w.interval then w.interval else d in
      elim (lookup dec k w.timers) [
        | some timer ↦ elim (w.heap timer.item) [
          | none ↦ (w, [])
          | some item ↦ move_task k delay (store timer.item (record item { value = v }) w)
        ]
        | none ↦ (set_new k v delay w, [])
      ]

  -- What the scan does with an entry that it meets.
  unfoldable pub relocate : ℕ → Entry K V → Wheel K V → Wheel K V
  unfolding store push_back set_timer_position
  relocate r e w =
      let pos = (w.ticked_pos + e.diff) % w.num_slots in
      store r (record e { diff = 0 }) (set_timer_position pos r e.key (push_back pos r w))

  -- The body of the loop of scanAndRunTasks, for an entry with these values of `removed`, `circle`
  -- and `diff`; `next` is the rest of the loop.
  unfoldable pub visit :
      (Wheel K V → Wheel K V × List ℕ × List (K × V))
      → ℕ
      → Entry K V
      → Bool
      → ℕ
      → ℕ
      → Wheel K V
      → Wheel K V × List ℕ × List (K × V)
  unfolding store relocate
  visit next r e true circle diff w = next w
  visit next r e false (suc c) diff w =
      let (w', kept, tasks) = next (store r (record e { circle = c }) w) in (w', r ∷ kept, tasks)
  visit next r e false zero (suc d) w = next (relocate r e w)
  visit next r e false zero zero w =
      let (w', kept, tasks) = next (record w { timers = delete dec e.key w.timers }) in
      (w', kept, (e.key, e.value) ∷ tasks)

  -- scanAndRunTasks over the entries of a slot: the wheel, the entries that stay in the slot, and
  -- the tasks to run. (An entry that moves goes to another slot, since its diff is less than the
  -- number of slots: Due.)
  unfoldable pub scan : List ℕ → Wheel K V → Wheel K V × List ℕ × List (K × V)
  unfolding visit
  scan [] w = (w, [], [])
  scan (r ∷ l) w = elim (w.heap r) [
    | none ↦ scan l w
    | some e ↦ visit (scan l) r e e.removed e.circle e.diff w
  ]

  -- onTick
  unfoldable pub on_tick : Wheel K V → Handled K V
  unfolding scan
  on_tick w =
      let p = (w.ticked_pos + 1) % w.num_slots in
      let (w', kept, tasks) = scan (slot_at w p) (record w { ticked_pos = p }) in
      (record w' { slots = set w'.slots p kept }, tasks)

module _ {K V : Type 0} where
  -- drainAll, over one slot
  unfoldable pub drain_slot : Wheel K V → List ℕ → List (K × V)
  drain_slot w [] = []
  drain_slot w (r ∷ l) = elim (w.heap r) [
    | none ↦ drain_slot w l
    | some e ↦ if e.removed then drain_slot w l else (e.key, e.value) ∷ drain_slot w l
  ]

  unfoldable pub drain_slots : Wheel K V → List (List ℕ) → List (K × V)
  unfolding drain_slot
  drain_slots w [] = []
  drain_slots w (l ∷ slots) = drain_slot w l ++ drain_slots w slots

  -- drainAll: every slot is emptied, and what was not removed is run.
  unfoldable pub drain_all : Wheel K V → Handled K V
  unfolding drain_slots
  drain_all w = (record w { slots = replicate w.num_slots [] }, drain_slots w w.slots)
