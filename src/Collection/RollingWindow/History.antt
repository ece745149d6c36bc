-- ===== src/Collection/RollingWindow/History.antt =====
-- A rolling window (core/collection/rollingwindow.go) after any sequence of timed events.
use mathlib.Core.Path.{ap₂, subst, subst₂, subst₃}
use native.Mathlib.Nat.{div-mul-le_self, zero-div, div-add-mod'}
use fastgozero.Prelude.{
  ℕ, zero, suc, ◌+◌, ◌-◌, ◌*◌, ◌/◌, ◌%◌, ◌≤◌, ◌<◌, ◌≡◌, refl, ap, sym, ◌∙◌, ◌&&◌, Bool, List, [],
  ◌∷◌, some, none, inl, inr, Bool-cases, arith, ltb, ◌==◌, if◌then◌else◌, get_or, replicate,
}
use fastgozero.Prelude.Cyclic.{cycle}
use fastgozero.Collection.RollingWindow.{
  BucketInterface, RollingWindow, new_rolling_window, update_offset, add, reduce,
}
use fastgozero.Collection.RollingWindow.View.{view_of}
use fastgozero.Collection.RollingWindow.Refine.{IsValid, view, new_rolling_window-IsValid}
use fastgozero.Collection.RollingWindow.Slots.{slots}
use fastgozero.Collection.RollingWindow.Timed.{
  interval_at, last_of, Ordered, Tracks, record_at, history, add_all, add_fields, Tracks-add,
  Tracks-reduce, span_at,
}

get_or-replicate {ℓ} : {A : Type ℓ} (n k : ℕ) (d : A) → get_or (replicate n d) k d ≡ d
get_or-replicate zero k d = refl
get_or-replicate (suc n) zero d = refl
get_or-replicate (suc n) (suc k) d = get_or-replicate n k d

cycle-replicate {ℓ} :
    {A : Type ℓ} (d : A) (n m s i p c : ℕ) → cycle d (replicate n d) m s i c ≡ slots (λ _. d) p c
unfolding cycle slots
cycle-replicate d n m s i p zero = refl
cycle-replicate d n m s i p (suc c) =
    ap₂ ◌∷◌ (get_or-replicate n ((s + i) % m) d) (cycle-replicate d n m s (i + 1) (p + 1) c)

interval_start : (t0 n s : ℕ) → t0 ≤ s → t0 + interval_at t0 n s * n ≤ s
unfolding interval_at
interval_start t0 n s h = omega (arith, div-mul-le_self (s - t0) n)

last_of-le {ℓ} :
    {V : Type ℓ} (s : ℕ) (events : List (ℕ × V)) → Ordered s events → s ≤ last_of s events
unfolding last_of
last_of-le s [] o = omega arith
last_of-le s ((t, v) ∷ events) o = omega (arith, last_of-le t events o.1, o.0)

module _ {ℓ} {V B : Type ℓ} (i : BucketInterface V B) where
  -- Add for each event in turn: its two readings of the clock, in span and after the reset of the
  -- expired buckets, and its value.
  unfoldable pub add_read : List (ℕ × ℕ × V) → RollingWindow B → RollingWindow B
  add_read [] w = w
  add_read ((now, now', v) ∷ events) w = add_read events (add i now now' v w)

-- The events at their first readings.
abbrev pub stamped {ℓ} : {V : Type ℓ} → List (ℕ × ℕ × V) → List (ℕ × V)
stamped [] = []
stamped ((now, now', v) ∷ events) = (now, v) ∷ stamped events

-- No boundary of an interval is between the two readings of an event.
abbrev pub InIntervals {ℓ} : {V : Type ℓ} → ℕ → ℕ → List (ℕ × ℕ × V) → Type 0
InIntervals t0 interval [] = Unit
InIntervals t0 interval ((now, now', v) ∷ events) =
    (now ≤ now')
    × (interval_at t0 interval now' ≡ interval_at t0 interval now)
    × InIntervals t0 interval events

module _ {ℓ} {V B : Type ℓ} (i : BucketInterface V B) (blank : (b : B) → i.reset b ≡ i.fresh) where
  -- The window that NewRollingWindow makes.
  abbrev initial : ℕ → ℕ → Bool → ℕ → RollingWindow B
  initial size interval ignore t0 = record {
    size = size;
    buckets = replicate size i.fresh;
    interval = interval;
    offset = 0;
    ignore_current = ignore;
    last_time = t0;
  }

  initial-eq :
      (size interval : ℕ) (ignore : Bool) (t0 : ℕ) {w : RollingWindow B}
      → new_rolling_window i size interval ignore t0 ≡ some w
      → initial size interval ignore t0 ≡ w
  unfolding new_rolling_window
  initial-eq size interval ignore t0 made = elim (Bool-cases (ltb size 1)) [
    | inl z ↦ absurd (none_not_some (rw z at made))
    | inr nz ↦ let m = rw nz at made in cc m
  ]
    where
      none_not_some : {w : RollingWindow B} → none ≡ some w → ⊥
      none_not_some e = cc

  new-Tracks :
      (size interval : ℕ) (ignore : Bool) (t0 : ℕ)
      → IsValid (initial size interval ignore t0)
      → Tracks i t0 (λ _. i.fresh) (interval_at t0 interval t0) (initial size interval ignore t0)
  new-Tracks size interval ignore t0 valid = record {
    valid = valid;
    last = omega (arith, ap (λ k. k * interval) at_zero);
    shows =
        unfold view view_of in
        cycle-replicate i.fresh size size ((0 + 1) % size) 0 (interval_at t0 interval t0) size;
    later = λ q a. refl;
  }
    where
      at_zero : interval_at t0 interval t0 ≡ 0
      at_zero =
          unfold interval_at in
          ap (λ k. k / interval) {x = t0 - t0} {y = 0} (omega arith) ∙ zero-div interval

  add_all-Tracks :
      (t0 s n interval : ℕ) (h : ℕ → B) (events : List (ℕ × V)) (w : RollingWindow B)
      → Tracks i t0 h (interval_at t0 interval s) w
      → w.size ≡ n
      → w.interval ≡ interval
      → t0 ≤ s
      → Ordered s events
      → Tracks i t0
          (history i t0 interval n events h)
          (interval_at t0 interval (last_of s events))
          (add_all i events w)
        × ((add_all i events w).size ≡ n)
        × ((add_all i events w).interval ≡ interval)
        × ((add_all i events w).ignore_current ≡ w.ignore_current)
  unfolding history add_all last_of
  add_all-Tracks t0 s n interval h [] w t en ei le o = (t, en, ei, refl)
  add_all-Tracks t0 s n interval h ((now, v) ∷ events) w t en ei le o =
      let f = add_fields i blank now v w in
      let start = interval_start t0 interval s le in
      let w' = add i now now v w in
      let added : Tracks i t0 (record_at i w.size (interval_at t0 w.interval now) v h)
          (interval_at t0 w.interval now) w' =
        Tracks-add i blank t0 h (interval_at t0 interval s) now v w t
          (rw ei (omega (arith, o.0))) in
      let moved : Tracks i t0 (record_at i n (interval_at t0 interval now) v h)
          (interval_at t0 interval now) w' =
        subst₂
          (λ a b. Tracks i t0 (record_at i a (interval_at t0 b now) v h) (interval_at t0 b now) w')
          en ei added in
      let (t', en', ei', ig') =
        add_all-Tracks t0 now n interval (record_at i n (interval_at t0 interval now) v h) events w'
          moved (f.0 ∙ en) (f.1 ∙ ei) (omega (arith, o.0)) o.1 in
      (t', en', ei', ig' ∙ f.2)

  -- Reduce, where an Add reads the clock once.
  pub reduce-add_all :
      (size interval : ℕ) (ignore : Bool) (t0 : ℕ) (events : List (ℕ × V)) (now : ℕ)
      {w : RollingWindow B}
      → 0 < interval
      → new_rolling_window i size interval ignore t0 ≡ some w
      → Ordered t0 events
      → last_of t0 events ≤ now
      → let h = history i t0 interval size events (λ _. i.fresh) in
        let e = interval_at t0 interval (last_of t0 events) in
        let k = interval_at t0 interval now in
        reduce i now (add_all i events w)
        ≡ (if k == e && ignore then slots h e (size - 1) else slots h k (e + size - k))
  reduce-add_all size interval ignore t0 events now {w} pos made o le =
      let eq = initial-eq size interval ignore t0 made in
      let valid : IsValid (initial size interval ignore t0) =
        subst IsValid (sym eq) (new_rolling_window-IsValid i size interval ignore t0 pos made) in
      let (t, en, ei, ig) =
        add_all-Tracks t0 t0 size interval (λ _. i.fresh) events (initial size interval ignore t0)
          (new-Tracks size interval ignore t0 valid) refl refl (omega arith) o in
      let last = last_of t0 events in
      let h = history i t0 interval size events (λ _. i.fresh) in
      let e = interval_at t0 interval last in
      let end = add_all i events (initial size interval ignore t0) in
      let start = interval_start t0 interval last (last_of-le t0 events o) in
      subst
        (λ w'. reduce i now (add_all i events w') ≡ (
          let k = interval_at t0 interval now in
          if k == e && ignore then slots h e (size - 1) else slots h k (e + size - k)))
        eq
        (subst₃
          (λ n b c. reduce i now end ≡ (
            let k = interval_at t0 b now in
            if k == e && c then slots h e (n - 1) else slots h k (e + n - k)))
          en ei ig (Tracks-reduce i blank t0 h e now end t (rw ei (omega arith))))

  add-same :
      (t0 : ℕ) (h : ℕ → B) (e now now' : ℕ) (v : V) (w : RollingWindow B)
      → Tracks i t0 h e w
      → t0 + e * w.interval ≤ now
      → now ≤ now'
      → interval_at t0 w.interval now' ≡ interval_at t0 w.interval now
      → add i now now' v w ≡ add i now now v w
  add-same t0 h e now now' v w t le later same =
      let (reached, spans, rest) = span_at i blank t0 h e now w t le in
      let (reached', spans', rest') = span_at i blank t0 h e now' w t (omega arith) in
      let whole = div-add-mod' (now - t0) w.interval in
      let whole' = div-add-mod' (now' - t0) w.interval in
      let q : (now' - t0) / w.interval * w.interval ≡ (now - t0) / w.interval * w.interval =
        ap (λ k. k * w.interval) (unfold interval_at in same) in
      let aligned : now' - (now' - w.last_time) % w.interval
          ≡ now - (now - w.last_time) % w.interval =
        omega arith in
      unfold add update_offset in rw aligned refl

  add_read-add_all :
      (t0 s n interval : ℕ) (h : ℕ → B) (events : List (ℕ × ℕ × V)) (w : RollingWindow B)
      → Tracks i t0 h (interval_at t0 interval s) w
      → w.size ≡ n
      → w.interval ≡ interval
      → t0 ≤ s
      → Ordered s (stamped events)
      → InIntervals t0 interval events
      → add_read i events w ≡ add_all i (stamped events) w
  unfolding add_read add_all
  add_read-add_all t0 s n interval h [] w t en ei le o same = refl
  add_read-add_all t0 s n interval h ((now, now', v) ∷ events) w t en ei le o same =
      let (t', en', ei', ig') =
        add_all-Tracks t0 s n interval h ((now, v) ∷ []) w t en ei le (o.0, tt) in
      let start = interval_start t0 interval s le in
      ap (add_read i events) (
        add-same t0 h (interval_at t0 interval s) now now' v w t (rw ei (omega (arith, o.0))) same.0
          (rw ei same.1))
      ∙ add_read-add_all t0 now n interval (history i t0 interval n ((now, v) ∷ []) h) events
          (add i now now v w) (unfold add_all last_of in t') en' ei' (omega (arith, o.0)) o.1 same.2

  -- A window of `size` intervals made at `t0`, after Adds at times that do not decrease, of which none reads the clock on two sides of a
  -- boundary of intervals. Let `e` be
  -- the interval of the last of them (of `t0`, if there was none) and `k` that of `now`, which is
  -- not earlier. Reduce at `now` hands over, oldest first, the buckets of the intervals from
  -- `k - size + 1` to `e` and no other; where `k` is `e` and the current bucket is ignored, those
  -- before `e`. (Interval `j` is entry `j + size - 1` of the history, so that the empty intervals
  -- before the first have places.) Each bucket is a fresh one with the values of its interval
  -- added in order.
  pub reduce_recent :
      (size interval : ℕ) (ignore : Bool) (t0 : ℕ) (events : List (ℕ × ℕ × V)) (now : ℕ)
      {w : RollingWindow B}
      → 0 < interval
      → new_rolling_window i size interval ignore t0 ≡ some w
      → Ordered t0 (stamped events)
      → InIntervals t0 interval events
      → last_of t0 (stamped events) ≤ now
      → let h = history i t0 interval size (stamped events) (λ _. i.fresh) in
        let e = interval_at t0 interval (last_of t0 (stamped events)) in
        let k = interval_at t0 interval now in
        reduce i now (add_read i events w)
        ≡ (if k == e && ignore then slots h e (size - 1) else slots h k (e + size - k))
  reduce_recent size interval ignore t0 events now {w} pos made o same le =
      let eq = initial-eq size interval ignore t0 made in
      let valid : IsValid (initial size interval ignore t0) =
        subst IsValid (sym eq) (new_rolling_window-IsValid i size interval ignore t0 pos made) in
      let one =
        add_read-add_all t0 t0 size interval (λ _. i.fresh) events (initial size interval ignore t0)
          (new-Tracks size interval ignore t0 valid) refl refl (omega arith) o same in
      ap (reduce i now) (subst (λ w'. add_read i events w' ≡ add_all i (stamped events) w') eq one)
      ∙ reduce-add_all size interval ignore t0 (stamped events) now pos made o le
