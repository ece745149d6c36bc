-- ===== src/Collection/TimingWheel/Drain.antt =====
-- Drain on a timing wheel (core/collection/timingwheel.go, drainAll), and what comes after it.
use fastgozero.Prelude.{
  ℕ, zero, suc, ◌+◌, ◌%◌, ◌≤◌, ◌<◌, ◌≡◌, refl, ap, sym, ◌∙◌, List, [], ◌∷◌, ◌++◌, inl, inr, true,
  false, some, arith, ◌==◌, ltb, leb, if◌then◌else◌, length, get_or, ℕ_discrete, Option-cases,
  Bool-cases,
}
use fastgozero.Prelude.Maps.{lookup}
use fastgozero.Collection.TimingWheel.{
  Entry, Position, Wheel, slot_at, store, get_position, move_item, move_task, set_task, scan,
  on_tick, drain_slot, drain_slots, drain_all,
}
use fastgozero.Collection.TimingWheel.Due.{count, Has, Pending}
use fastgozero.Collection.TimingWheel.Visit.{slot-set}
use fastgozero.Collection.TimingWheel.Schedule.{ticks, get_or-empty}

Has-left : {A : Type 0} (x : A) (l m : List A) → Has x l → Has x (l ++ m)
Has-left x [] m h = elim h [ ]
Has-left x (y ∷ l) m (inl e) = inl e
Has-left x (y ∷ l) m (inr h) = inr (Has-left x l m h)

Has-right : {A : Type 0} (x : A) (l m : List A) → Has x m → Has x (l ++ m)
Has-right x [] m h = h
Has-right x (y ∷ l) m h = inr (Has-right x l m h)

count-Has : (r : ℕ) (l : List ℕ) → 0 < count r l → Has r l
unfolding count
count-Has r [] h = absurd (omega (arith, h))
count-Has r (q ∷ l) h = elim (ℕ_discrete q r) [
  | yes same ↦ inl (sym same)
  | no ne ↦ inr (count-Has r l (ground arith))
]

module _ {K V : Type 0} where
  -- A wheel with nothing in its slots.
  abbrev pub Empty : Wheel K V → Type 0
  Empty w = (q : ℕ) → slot_at w q ≡ []

  -- Drain leaves every slot empty.
  pub drain_all-Empty : (w : Wheel K V) → Empty (drain_all w).0
  unfolding drain_all
  drain_all-Empty w q = get_or-empty w.num_slots q

  drain_slot-Has :
      (r : ℕ) (e : Entry K V) (w : Wheel K V) (l : List ℕ)
      → w.heap r ≡ some e
      → e.removed ≡ false
      → Has r l
      → Has (e.key, e.value) (drain_slot w l)
  unfolding drain_slot
  drain_slot-Has r e w [] held live h = elim h [ ]
  drain_slot-Has r e w (q ∷ l) held live (inl same) =
      rw (ap w.heap (sym same) ∙ held, live, drain_slot) (inl refl)
  drain_slot-Has r e w (q ∷ l) held live (inr h) = elim (Option-cases (w.heap q)) [
    | inl gone ↦ rw (gone, drain_slot) (drain_slot-Has r e w l held live h)
    | inr (o, there) ↦ elim (Bool-cases o.removed) [
      | inl dead ↦ rw (there, dead, drain_slot) (drain_slot-Has r e w l held live h)
      | inr on ↦ rw (there, on, drain_slot) (inr (drain_slot-Has r e w l held live h))
    ]
  ]

  drain_slots-Has :
      (r p : ℕ) (e : Entry K V) (w : Wheel K V) (slots : List (List ℕ))
      → w.heap r ≡ some e
      → e.removed ≡ false
      → Has r (get_or slots p [])
      → Has (e.key, e.value) (drain_slots w slots)
  unfolding drain_slots
  drain_slots-Has r zero e w [] held live h = elim h [ ]
  drain_slots-Has r (suc p) e w [] held live h = elim h [ ]
  drain_slots-Has r zero e w (l ∷ slots) held live h =
      Has-left (e.key, e.value) (drain_slot w l) (drain_slots w slots)
        (drain_slot-Has r e w l held live h)
  drain_slots-Has r (suc p) e w (l ∷ slots) held live h =
      Has-right (e.key, e.value) (drain_slot w l) (drain_slots w slots)
        (drain_slots-Has r p e w slots held live h)

  -- Drain runs every task that waits in the wheel, and leaves every slot empty.
  pub drain_all_lem :
      (r p d : ℕ) (e : Entry K V) (w : Wheel K V)
      → Pending r p d e w
      → Has (e.key, e.value) (drain_all w).1 × Empty (drain_all w).0
  unfolding drain_all
  drain_all_lem r p d e w h = (
    drain_slots-Has r p e w w.slots h.held h.live
        (count-Has r (slot_at w p) (omega (arith, h.once))),
    drain_all-Empty w,
  )

module _ {K V : Type 0} (dec : Discrete K) where
  on_tick-Empty : (w : Wheel K V) → Empty w → Empty (on_tick dec w).0 × ((on_tick dec w).1 ≡ [])
  unfolding on_tick scan
  on_tick-Empty w h =
      let p = (w.ticked_pos + 1) % w.num_slots in
      rw (h p) ((λ q. slot-set w.slots p q [] ∙ cleared p q), refl)
    where
      cleared :
          (p q : ℕ)
          → (if p == q then (if ltb p (length w.slots) then [] else []) else get_or w.slots q [])
            ≡ []
      cleared p q = ground (arith, h q)

  ticks-Empty : (j : ℕ) (w : Wheel K V) → Empty w → Empty (ticks dec j w)
  unfolding ticks
  ticks-Empty zero w h = h
  ticks-Empty (suc j) w h = ticks-Empty j (on_tick dec w).0 (on_tick-Empty w h).0

  -- A move to a slot that is not before the old one pushes nothing to the slots.
  slots-move_task :
      (k : K) (d : ℕ) (timer : Position) (e : Entry K V) (w : Wheel K V)
      → lookup dec k w.timers ≡ some timer
      → w.heap timer.item ≡ some e
      → ltb d w.interval ≡ false
      → leb timer.pos (get_position w d) ≡ true
      → (move_task dec k d w).0.slots ≡ w.slots
  unfolding move_task move_item
  slots-move_task k d timer e w found there long forth =
      rw (found, there, long, forth, move_task, move_item) (unfold store in refl)

  -- Drain leaves the timers as they are. SetTimer of a key that has one, at a slot that is not after
  -- that of the new delay (of one interval at least), then only writes to its entry, which is in no
  -- slot any more: no tick runs the task.
  pub set_task_lost :
      (k : K) (v : V) (d j : ℕ) (timer : Position) (e : Entry K V) (w : Wheel K V)
      → lookup dec k w.timers ≡ some timer
      → w.heap timer.item ≡ some e
      → w.interval ≤ d
      → timer.pos ≤ get_position w d
      → let w' = (set_task dec k v d (drain_all w).0).0 in (on_tick dec (ticks dec j w')).1 ≡ []
  set_task_lost k v d j timer e w found there le after = (on_tick-Empty _ (ticks-Empty j _ kept)).1
    where
      long : ltb d w.interval ≡ false
      long = ground (arith, le)

      forth : leb timer.pos (get_position w d) ≡ true
      forth = ground (arith, after)

      kept : Empty (set_task dec k v d (drain_all w).0).0
      kept q =
          let e' = record e { value = v } in
          let w' = store timer.item e' (drain_all w).0 in
          unfold set_task drain_all in
          rw (found, there, long, set_task)
            (ap (λ l. get_or l q [])
                (slots-move_task k d timer e' w' (unfold store in found)
                  (unfold store in ground arith) (unfold store in long)
                  (unfold store get_position in forth))
              ∙ (unfold store in get_or-empty w.num_slots q))
