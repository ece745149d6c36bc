-- ===== src/Collection/RollingWindow/Timed.antt =====
-- A rolling window (core/collection/rollingwindow.go) against the times of what was added: it holds
-- one bucket for each of the last intervals, with exactly the values added during it.
use mathlib.Core.Path.{ap₂}
use native.Mathlib.Nat.{div-add-mod', le-div_iff_mul-le}
use fastgozero.Prelude.{
  ℕ, zero, suc, ◌+◌, ◌-◌, ◌*◌, ◌/◌, ◌%◌, ◌≤◌, ◌<◌, ◌≡◌, refl, ap, sym, ◌∙◌, ◌&&◌, true, false, List,
  [], ◌∷◌, ◌++◌, inl, inr, arith, leb, ◌==◌, if◌then◌else◌, Bool-cases, take, drop, min,
}
use fastgozero.Collection.RollingWindow.{
  BucketInterface, RollingWindow, span, update_offset, add, reduce,
}
use fastgozero.Collection.RollingWindow.View.{map_last, roll}
use fastgozero.Collection.RollingWindow.Refine.{IsValid, view, add-IsValid, view-add, reduce-view}
use fastgozero.Collection.RollingWindow.Slots.{
  slots, take_to, drop_to, slots-snoc, slots_congr, map_last-slots, div_shift, roll_to,
}

-- The number of the interval of `t`, counted from `t0`.
unfoldable pub interval_at : ℕ → ℕ → ℕ → ℕ
interval_at t0 interval t = (t - t0) / interval

-- The time of the last event, `t0` if there is none.
unfoldable pub last_of {ℓ} : {V : Type ℓ} → ℕ → List (ℕ × V) → ℕ
last_of t0 [] = t0
last_of t0 ((t, v) ∷ events) = last_of t events

-- The times do not decrease, from `t0` on.
abbrev pub Ordered {ℓ} : {V : Type ℓ} → ℕ → List (ℕ × V) → Type 0
Ordered t0 [] = Unit
Ordered t0 ((t, v) ∷ events) = (t0 ≤ t) × Ordered t events

module _ {ℓ} {V B : Type ℓ} (i : BucketInterface V B) where
  -- The window's last interval is the `e`-th since `t0`; its buckets are the entries `e` up to
  -- `e + size - 1` of `h`, so interval `j` stands at `j + size - 1`; later ones are fresh.
  pub record Tracks (t0 : ℕ) (h : ℕ → B) (e : ℕ) (w : RollingWindow B) : Type ℓ where
    pub valid : IsValid w
    pub last : w.last_time ≡ t0 + e * w.interval
    pub shows : view i w ≡ slots h e w.size
    pub later : (q : ℕ) → e + w.size ≤ q → h q ≡ i.fresh

  -- The sequence with a value added in interval `k` of a window of `n`.
  unfoldable pub record_at : ℕ → ℕ → V → (ℕ → B) → ℕ → B
  record_at n k v h q = if k + (n - 1) == q then i.add v (h q) else h q

  -- What the events add in each interval, to a sequence `h`.
  unfoldable pub history : ℕ → ℕ → ℕ → List (ℕ × V) → (ℕ → B) → ℕ → B
  history t0 interval n [] h = h
  history t0 interval n ((t, v) ∷ events) h =
      history t0 interval n events (record_at n (interval_at t0 interval t) v h)

  -- Add for each event in turn, at its time.
  unfoldable pub add_all : List (ℕ × V) → RollingWindow B → RollingWindow B
  add_all [] w = w
  add_all ((t, v) ∷ events) w = add_all events (add i t t v w)

module _ {ℓ} {V B : Type ℓ} (i : BucketInterface V B) (blank : (b : B) → i.reset b ≡ i.fresh) where
  -- The spans of a window that tracks `h`, at a time that is not before its last one.
  pub span_at :
      (t0 : ℕ) (h : ℕ → B) (e now : ℕ) (w : RollingWindow B)
      → Tracks i t0 h e w
      → t0 + e * w.interval ≤ now
      → (e ≤ interval_at t0 w.interval now)
        × (span now w ≡ min (interval_at t0 w.interval now - e) w.size)
        × ((now - w.last_time) % w.interval ≡ (now - t0) % w.interval)
  unfolding span interval_at
  span_at t0 h e now w t le =
      let since : now - w.last_time ≡ now - t0 - e * w.interval = omega (arith, t.last) in
      let s = div_shift (now - t0) w.interval e t.valid.some_interval (omega arith) in
      let q : (now - w.last_time) / w.interval ≡ (now - t0) / w.interval - e =
        ap (λ a. a / w.interval) since ∙ s.0 in
      let later : w.last_time ≤ now = omega (arith, t.last) in
      (
        (le-div_iff_mul-le {k = w.interval} t.valid.some_interval).1 (omega arith),
        ground arith,
        ap (λ a. a % w.interval) since ∙ s.1,
      )

  pub add_fields :
      (now : ℕ) (v : V) (w : RollingWindow B)
      → ((add i now now v w).size ≡ w.size)
        × ((add i now now v w).interval ≡ w.interval)
        × ((add i now now v w).ignore_current ≡ w.ignore_current)
        × ((add i now now v w).last_time
            ≡ (if leb (span now w) 0 then w.last_time else now - (now - w.last_time) % w.interval))
  unfolding add update_offset
  add_fields now v w = elim (Bool-cases (leb (span now w) 0)) [
    | inl e ↦ rw e (refl, refl, refl, refl)
    | inr e ↦ rw e (refl, refl, refl, refl)
  ]

  last_time-add :
      (t0 : ℕ) (h : ℕ → B) (e now : ℕ) (v : V) (w : RollingWindow B)
      → Tracks i t0 h e w
      → t0 + e * w.interval ≤ now
      → (add i now now v w).last_time
        ≡ t0 + interval_at t0 w.interval now * (add i now now v w).interval
  unfolding interval_at
  last_time-add t0 h e now v w t le =
      let f = add_fields now v w in
      let (reached, spans, rest) = span_at t0 h e now w t le in
      let whole = div-add-mod' (now - t0) w.interval in
      f.3 ∙ elim (Bool-cases (leb (span now w) 0)) [
        | inl z ↦ rw z (
            t.last
            ∙ ap₂ (λ k n. t0 + k * n) {x = e} {y = (now - t0) / w.interval} (ground arith)
                (sym f.1))
        | inr nz ↦ rw nz (
            let aligned : now - (now - w.last_time) % w.interval
                ≡ t0 + (now - t0) / w.interval * w.interval =
              omega arith in
            aligned ∙ ap (λ n. t0 + (now - t0) / w.interval * n) (sym f.1))
      ]

  slots-record_at :
      (h : ℕ → B) (k n : ℕ) (v : V)
      → 0 < n
      → slots (record_at i n k v h) k n ≡ map_last (i.add v) (slots h k n)
  unfolding record_at
  slots-record_at h k zero v pos = absurd (omega arith)
  slots-record_at h k (suc m) v pos =
      slots-snoc (record_at i (suc m) k v h) k m
      ∙ ap₂ (λ l b. l ++ (b ∷ []))
          (slots_congr (record_at i (suc m) k v h) h k m (λ q a b. other q b)) newest
      ∙ sym (map_last-slots (i.add v) h k m)
    where
      other : (q : ℕ) → q < k + m → record_at i (suc m) k v h q ≡ h q
      other q b = let apart : (k + (suc m - 1) == q) ≡ false = ground arith in rw apart

      newest : record_at i (suc m) k v h (k + m) ≡ i.add v (h (k + m))
      newest = let here : (k + (suc m - 1) == (k + m)) ≡ true = ground arith in rw here

  -- Add, at a time that is not before the window's last: the window goes on to the interval of
  -- that time, and the value is recorded there.
  pub Tracks-add :
      (t0 : ℕ) (h : ℕ → B) (e now : ℕ) (v : V) (w : RollingWindow B)
      → Tracks i t0 h e w
      → t0 + e * w.interval ≤ now
      → Tracks i t0
          (record_at i w.size (interval_at t0 w.interval now) v h)
          (interval_at t0 w.interval now)
          (add i now now v w)
  Tracks-add t0 h e now v w t le =
      let f = add_fields now v w in
      let k = interval_at t0 w.interval now in
      let (reached, spans, rest) = span_at t0 h e now w t le in
      let valid = add-IsValid i now now v t.valid in
      record {
        valid = valid;
        last = last_time-add t0 h e now v w t le;
        shows =
            view-add i now now v t.valid
            ∙ ap (map_last (i.add v)) (
                ap₂ (roll i) spans t.shows
                ∙ roll_to i blank h e (k - e) w.size t.valid.some_size t.later
                ∙ ap (λ p. slots h p w.size) (omega arith))
            ∙ sym (slots-record_at h k w.size v t.valid.some_size)
            ∙ ap (slots (record_at i w.size k v h) k) (sym f.0);
        later = λ q a.
            untouched q (omega (arith, f.0, t.valid.some_size)) ∙ t.later q (omega (arith, f.0));
      }
    where
      untouched :
          (q : ℕ)
          → interval_at t0 w.interval now + (w.size - 1) < q
          → record_at i w.size (interval_at t0 w.interval now) v h q ≡ h q
      untouched q lt =
          unfold record_at in
          let apart : (interval_at t0 w.interval now + (w.size - 1) == q) ≡ false = ground arith in
          rw apart

  -- Reduce, at a time that is not before the window's last.
  pub Tracks-reduce :
      (t0 : ℕ) (h : ℕ → B) (e now : ℕ) (w : RollingWindow B)
      → Tracks i t0 h e w
      → t0 + e * w.interval ≤ now
      → let k = interval_at t0 w.interval now in
        reduce i now w ≡ (
          if k == e && w.ignore_current then slots h e (w.size - 1) else slots h k (e + w.size - k))
  Tracks-reduce t0 h e now w t le =
      let k = interval_at t0 w.interval now in
      let (reached, spans, rest) = span_at t0 h e now w t le in
      let same : (span now w == 0) ≡ (k == e) = ground (arith, t.valid.some_size) in
      reduce-view i now t.valid
      ∙ ap
          (λ b.
            if b && w.ignore_current
            then take (w.size - 1) (view i w)
            else drop (span now w) (view i w))
          same
      ∙ ap₂ (λ x y. if k == e && w.ignore_current then x else y)
          (ap (take (w.size - 1)) t.shows ∙ take_to h e w.size (w.size - 1) (omega arith))
          (ap₂ drop spans t.shows ∙ drop_to h e k w.size reached)
