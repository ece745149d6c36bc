-- ===== src/Collection/TimingWheel/Move.antt =====
-- MoveTimer on a timing wheel (core/collection/timingwheel.go): when the moved task runs.
use mathlib.Core.Path.{subst}
use native.Mathlib.Nat.{le-div_iff_mul-le}
use fastgozero.Prelude.{
  ℕ, suc, ◌+◌, ◌-◌, ◌*◌, ◌/◌, ◌%◌, ◌≤◌, ◌<◌, ◌≡◌, ◌==◌, refl, sym, ap, ℕ_discrete, [], ◌&&◌, true,
  false, some, inl, inr, Bool-cases, arith, ltb, leb, if◌then◌else◌,
}
use fastgozero.Prelude.Cyclic.{mod-lt', mod_wrap}
use fastgozero.Prelude.Maps.{lookup}
use fastgozero.Collection.TimingWheel.{
  Entry, Wheel, store, get_position, get_circle, move_item, move_task,
}
use fastgozero.Collection.TimingWheel.Due.{dist, due, due_steps, Pending}
use fastgozero.Collection.TimingWheel.Fire.{Waits}
use fastgozero.Collection.TimingWheel.Silent.{IsOther}
use fastgozero.Collection.TimingWheel.Quiet.{IsAlone, push_back-IsAlone}
use fastgozero.Collection.TimingWheel.Schedule.{IsValid, pushed-Pending}

-- The ticks that a task of slot `p` waits after a move by `s` steps on a wheel of `n` slots whose
-- slot `t` was visited last: `s`, but a turn more if the old slot was visited in this turn and the
-- new one was not, and a turn less if it is the other way round and `s` is more than a turn.
unfoldable pub moved_wait : ℕ → ℕ → ℕ → ℕ → ℕ
moved_wait n t p s =
    let pos = (t + s) % n in
    if leb p pos
    then (if leb p t && ltb t pos then s + n else s)
    else (if ltb 0 ((s - 1) / n) && (leb pos t && ltb t p) then s - n else s)

-- The distance of a slot, without remainders.
dist_cases : (n t p : ℕ) → t < n → p < n → dist n t p ≡ (if ltb t p then p - t else p + n - t)
unfolding dist
dist_cases n t p ht hp = ground (arith, mod_wrap (p + n - t - 1) n (omega arith))

spread : (n t s : ℕ) → t < n → 0 < s → dist n t ((t + s) % n) + (s - 1) / n * n + 0 ≡ s
unfolding due
spread n t s ht hs = due_steps n t s ht hs

exact : (n t s : ℕ) → t < n → 0 < s → dist n t ((t + s) % n) + (s - 1) / n * n ≡ s
exact n t s ht hs = omega (arith, spread n t s ht hs)

moved_later :
    (n t p s : ℕ)
    → t < n
    → p < n
    → 0 < s
    → p ≤ (t + s) % n
    → due n t p ((s - 1) / n) ((t + s) % n - p) ≡ moved_wait n t p s
unfolding due moved_wait
moved_later n t p s ht hp hs le = ground (
  arith,
  dist_cases n t p ht hp,
  dist_cases n t ((t + s) % n) ht (mod-lt' (t + s) n (omega arith)),
  exact n t s ht hs,
)

moved_earlier :
    (n t p s c : ℕ)
    → t < n
    → p < n
    → 0 < s
    → (t + s) % n < p
    → (s - 1) / n ≡ suc c
    → due n t p c (n + (t + s) % n - p) ≡ moved_wait n t p s
unfolding due moved_wait
moved_earlier n t p s c ht hp hs lt ec = ground (
  arith,
  dist_cases n t p ht hp,
  dist_cases n t ((t + s) % n) ht (mod-lt' (t + s) n (omega arith)),
  exact n t s ht hs,
  ap (λ k. k * n) ec,
  suc_mul c n,
)
  where
    suc_mul : (c n : ℕ) → suc c * n ≡ c * n + n
    suc_mul c n = omega arith

module _ {K V : Type 0} where
  -- A write to the circle and the diff of an entry that waits.
  stored-Pending :
      (r p d s c f : ℕ) (e : Entry K V) (w : Wheel K V)
      → Pending r p d e w
      → f < w.num_slots
      → due w.num_slots w.ticked_pos p c f ≡ s
      → Pending r p s
          (record e { circle = c; diff = f })
          (store r (record e { circle = c; diff = f }) w)
  stored-Pending r p d s c f e w h lt waits = record {
    ticked_in = unfold store in h.ticked_in;
    sized = unfold store in h.sized;
    pos_in = unfold store in h.pos_in;
    held = unfold store in ground arith;
    live = h.live;
    diff_in = unfold store in lt;
    once = unfold store in h.once;
    elsewhere = unfold store in h.elsewhere;
    waits = unfold store in waits;
  }

  -- A write to the entry that is alone.
  stored-IsAlone :
      (k : K) (r : ℕ) (e : Entry K V) (w : Wheel K V) → IsAlone k r w → IsAlone k r (store r e w)
  unfolding store
  stored-IsAlone k r e w alone = record {
    others = λ q ne. elim (alone.others q ne) [
      | inl other ↦
          let old : (if r == q then some e else w.heap q) ≡ w.heap q = ground (arith, ne) in
          inl (subst (IsOther k) (sym old) other)
      | inr nowhere ↦ inr nowhere
    ];
  }

  removed-IsAlone :
      (k : K) (r s : ℕ) (e : Entry K V) (w : Wheel K V)
      → IsAlone k r w
      → IsAlone k s (store r (record e { removed = true }) w)
  removed-IsAlone k r s e w alone = record {
    others = λ q ne. elim (ℕ_discrete q r) [
      | yes same ↦
          let gone : (store r (record e { removed = true }) w).heap q
              ≡ some (record e { removed = true }) =
            unfold store in ground (arith, same) in
          inl (subst (IsOther k) (sym gone) (inr refl))
      | no off ↦ (stored-IsAlone k r (record e { removed = true }) w alone).others q off
    ];
  }

  store-IsValid : (r : ℕ) (e : Entry K V) (w : Wheel K V) → IsValid w → IsValid (store r e w)
  unfolding store
  store-IsValid r e w v = record {
    some_interval = v.some_interval;
    ticked_in = v.ticked_in;
    sized = v.sized;
    fresh = v.fresh;
  }

module _ {K V : Type 0} (dec : Discrete K) where
  module _ (k : K) (d r p old : ℕ) (e : Entry K V) (w : Wheel K V) (valid : IsValid w)
      (le : w.interval ≤ d) (h : Pending r p old e w) (same : e.key ≡ k)
      (alone : IsAlone k r w) where
    abbrev way : ℕ
    way = d / w.interval

    abbrev goal_pos : ℕ
    goal_pos = (w.ticked_pos + way) % w.num_slots

    way_pos : 0 < way
    way_pos = (le-div_iff_mul-le {k = w.interval} {x = 1} valid.some_interval).1 (omega (arith, le))

    abbrev Moved : Wheel K V → Type 0
    Moved w' =
        (q : ℕ) × Waits dec q (moved_wait w.num_slots w.ticked_pos p way) k e.value w'
        × IsAlone k q w'

    move-forth :
        leb p goal_pos ≡ true → Moved (move_item dec k d (record { pos = p; item = r }) e w)
    move-forth fwd =
        unfold move_item get_position get_circle in
        rw fwd (
          r,
          record {
            slot = p;
            entry = record e { circle = (way - 1) / w.num_slots; diff = goal_pos - p };
            pending =
                stored-Pending r p old _ _ _ e w h
                  (omega (
                    arith,
                    mod-lt' (w.ticked_pos + way) w.num_slots (omega (arith, valid.ticked_in)),
                  ))
                  (moved_later w.num_slots w.ticked_pos p way valid.ticked_in h.pos_in way_pos
                    (ground (arith, fwd)));
            same_key = same;
            same_value = refl;
          },
          stored-IsAlone k r _ w alone,
        )

    move-turn :
        leb p goal_pos ≡ false
        → ltb 0 ((way - 1) / w.num_slots) ≡ true
        → Moved (move_item dec k d (record { pos = p; item = r }) e w)
    move-turn back more =
        unfold move_item get_position get_circle in
        rw back (
          rw more (
            r,
            record {
              slot = p;
              entry = record e {
                circle = (way - 1) / w.num_slots - 1;
                diff = w.num_slots + goal_pos - p;
              };
              pending = stored-Pending r p old _ _ _ e w h (ground (arith, back, h.pos_in)) (
                  moved_earlier w.num_slots w.ticked_pos p way ((way - 1) / w.num_slots - 1)
                    valid.ticked_in h.pos_in way_pos (ground (arith, back)) (ground (arith, more)));
              same_key = same;
              same_value = refl;
            },
            stored-IsAlone k r _ w alone,
          ))

    move-anew :
        leb p goal_pos ≡ false
        → ltb 0 ((way - 1) / w.num_slots) ≡ false
        → Moved (move_item dec k d (record { pos = p; item = r }) e w)
    move-anew back none_left =
        let w1 = store r (record e { removed = true }) w in
        let fresh : Entry K V = record {
          delay = d;
          key = k;
          value = e.value;
          circle = 0;
          diff = 0;
          removed = false;
        } in
        (
          w.next_ref,
          record {
            slot = goal_pos;
            entry = fresh;
            pending =
                subst
                  (λ s.
                    Pending w.next_ref goal_pos s fresh
                      (move_item dec k d (record { pos = p; item = r }) e w))
                  (wait_way)
                  (unfold move_item get_position get_circle in
                    rw back (
                      rw none_left (
                        pushed-Pending way fresh w1 _
                          (store-IsValid r (record e { removed = true }) w valid) way_pos
                          (ground (arith, none_left)) refl refl refl refl (ground arith) refl)));
            same_key = refl;
            same_value = refl;
          },
          push_back-IsAlone k w.next_ref goal_pos w1
              (move_item dec k d (record { pos = p; item = r }) e w)
              (unfold store in
                rw valid.sized
                  (mod-lt' (w.ticked_pos + way) w.num_slots (omega (arith, valid.ticked_in))))
              (unfold move_item get_position get_circle in
                rw (back, none_left) (λ q ne. ground (arith, ne)))
              (unfold move_item get_position get_circle in rw (back, none_left) refl)
              (removed-IsAlone k r w.next_ref e w alone),
        )
      where
        wait_way : way ≡ moved_wait w.num_slots w.ticked_pos p way
        wait_way = unfold moved_wait in rw back (rw none_left refl)

    -- MoveTimer for the key of an entry that waits, to a delay of one interval at least: nothing runs
    -- at once, and the task waits in one slot (with the entry it had or a new one) for `moved_wait`
    -- ticks.
    pub move_task-Waits :
        w.heap r ≡ some e
        → lookup dec k w.timers ≡ some (record { pos = p; item = r })
        → Moved (move_task dec k d w).0 × ((move_task dec k d w).1 ≡ [])
    move_task-Waits there timer =
        let long : ltb d w.interval ≡ false = ground (arith, le) in
        unfold move_task in rw (timer, there, long, move_task) (moved, refl)
      where
        moved : Moved (move_item dec k d (record { pos = p; item = r }) e w)
        moved = elim (Bool-cases (leb p goal_pos)) [
          | inl fwd ↦ move-forth fwd
          | inr back ↦ elim (Bool-cases (ltb 0 ((way - 1) / w.num_slots))) [
            | inl more ↦ move-turn back more
            | inr none_left ↦ move-anew back none_left
          ]
        ]
