-- ===== src/Collection/TimingWheel/Tick.antt =====
-- A tick of a timing wheel (core/collection/timingwheel.go, onTick) brings every entry one tick
-- nearer to its run, and runs the entries that are due.
use mathlib.Core.Path.{ap₂}
use fastgozero.Prelude.{
  ℕ, ◌+◌, ◌-◌, ◌*◌, ◌%◌, ◌<◌, ◌≡◌, ◌≢◌, ap, sym, ◌∙◌, List, false, some, arith, ◌==◌, if◌then◌else◌,
  length, length-set, ℕ_discrete,
}
use fastgozero.Prelude.Cyclic.{mod-lt'}
use fastgozero.Collection.TimingWheel.{Entry, Wheel, slot_at, scan, on_tick}
use fastgozero.Collection.TimingWheel.Due.{dist, due, dist_tick, count, Pending}
use fastgozero.Collection.TimingWheel.Visit.{slot-set, scan-Left}
use fastgozero.Collection.TimingWheel.Meet.{visited, stays, arrives, Met, scan-Met}

module _ {K V : Type 0} (dec : Discrete K) (r p : ℕ) (e : Entry K V) (w : Wheel K V) where
  -- The wheel when the scan of the slot begins.
  abbrev pub turned : Wheel K V
  turned = record w { ticked_pos = (w.ticked_pos + 1) % w.num_slots }

  abbrev pub scanned : Wheel K V × List ℕ × List (K × V)
  scanned = scan dec (slot_at w ((w.ticked_pos + 1) % w.num_slots)) turned

  -- The counts of the slots after the tick, from those after the scan.
  pub tick-counts :
      (q : ℕ)
      → length scanned.0.slots ≡ w.num_slots
      → w.ticked_pos < w.num_slots
      → count r (slot_at (on_tick dec w).0 q) ≡ (
          if (w.ticked_pos + 1) % w.num_slots == q
          then count r scanned.1
          else count r (slot_at scanned.0 q))
  unfolding on_tick
  tick-counts q sized lt = ground (
    arith,
    slot-set scanned.0.slots ((w.ticked_pos + 1) % w.num_slots) q scanned.1,
    mod-lt' (w.ticked_pos + 1) w.num_slots,
  )

  -- The entry that the scan leaves at `r`, in its slot.
  tick-Pending :
      (p' d' : ℕ) (e' : Entry K V)
      → w.ticked_pos < w.num_slots
      → scanned.0.ticked_pos ≡ (w.ticked_pos + 1) % w.num_slots
      → scanned.0.num_slots ≡ w.num_slots
      → length scanned.0.slots ≡ w.num_slots
      → scanned.0.heap r ≡ some e'
      → e'.removed ≡ false
      → e'.diff < w.num_slots
      → p' < w.num_slots
      → ((q : ℕ)
          → (if (w.ticked_pos + 1) % w.num_slots == q
              then count r scanned.1
              else count r (slot_at scanned.0 q))
            ≡ (if p' == q then 1 else 0))
      → due w.num_slots ((w.ticked_pos + 1) % w.num_slots) p' e'.circle e'.diff ≡ d'
      → Pending r p' d' e' (on_tick dec w).0
  tick-Pending p' d' e' lt ticked num sized held live diff_in pos_in counts waits = record {
    ticked_in =
        unfold on_tick in rw (num, ticked) (mod-lt' (w.ticked_pos + 1) w.num_slots (omega arith));
    sized = unfold on_tick in length-set scanned.0.slots _ _ ∙ sized ∙ sym num;
    pos_in = unfold on_tick in rw num pos_in;
    held = unfold on_tick in held;
    live = live;
    diff_in = unfold on_tick in rw num diff_in;
    once = tick-counts p' sized lt ∙ counts p' ∙ here p';
    elsewhere = λ q ne. tick-counts q sized lt ∙ counts q ∙ away q ne;
    waits = unfold on_tick in ap₂ (λ n t. due n t p' e'.circle e'.diff) num ticked ∙ waits;
  }
    where
      here : (q : ℕ) → ◌≡◌ {A = ℕ} (if q == q then 1 else 0) 1
      here q = ground arith

      away : (q : ℕ) → q ≢ p' → ◌≡◌ {A = ℕ} (if p' == q then 1 else 0) 0
      away q ne = ground arith

  module _ (d : ℕ) (h : Pending r p d e w) where
    abbrev pub t' : ℕ
    t' = (w.ticked_pos + 1) % w.num_slots

    pub t'_lt : t' < w.num_slots
    t'_lt = mod-lt' (w.ticked_pos + 1) w.num_slots (omega (arith, h.ticked_in))

    -- The slot is not the one that is visited.
    pub tick-waiting : p ≢ t' → Pending r p (d - 1) e (on_tick dec w).0
    tick-waiting ne =
        let s =
          scan-Left dec r (slot_at w t') turned (omega (arith, h.ticked_in)) h.sized
            (h.elsewhere t' (λ q. ne (sym q))) in
        let u = s.untouched in
        tick-Pending p (d - 1) e h.ticked_in u.ticked u.num (u.sized ∙ h.sized) (u.held ∙ h.held)
          h.live h.diff_in h.pos_in (λ q. counts q (u.counts q) s.dropped) (unfold due in nearer)
      where
        counts :
            (q : ℕ)
            → count r (slot_at scanned.0 q) ≡ count r (slot_at w q)
            → count r scanned.1 ≡ 0
            → (if t' == q then count r scanned.1 else count r (slot_at scanned.0 q))
              ≡ (if p == q then 1 else 0)
        counts q same gone = elim (ℕ_discrete p q) [
          | yes at ↦ ground (arith, ap (λ k. count r (slot_at w k)) at, h.once)
          | no off ↦ ground (arith, h.elsewhere q (λ e. off (sym e)))
        ]

        nearer : dist w.num_slots t' p + e.circle * w.num_slots + e.diff ≡ d - 1
        nearer =
            unfold due in
            ground (arith, h.waits, dist_tick w.num_slots w.ticked_pos p h.ticked_in h.pos_in)

    -- The slot is the one that is visited.
    module _ (at : p ≡ t') where
      pub met : Met r e e.circle e.diff turned scanned
      met =
          scan-Met dec r e (slot_at w t') turned (omega (arith, h.ticked_in)) h.sized h.held h.live
            (ap (λ k. count r (slot_at w k)) (sym at) ∙ h.once)

      -- What is left of the wait: the turns and the diff.
      pub rest : e.circle * w.num_slots + e.diff + 1 ≡ d
      rest =
          unfold due in
          ground (arith, h.waits, dist_tick w.num_slots w.ticked_pos p h.ticked_in h.pos_in)

      counts_at :
          (c k : ℕ) (p' : ℕ)
          → e.circle ≡ c
          → e.diff ≡ k
          → ((q : ℕ)
              → (if t' == q then stays c else arrives w.num_slots t' c k q + count r (slot_at w q))
                ≡ (if p' == q then 1 else 0))
          → (q : ℕ)
          → (if t' == q then count r scanned.1 else count r (slot_at scanned.0 q))
            ≡ (if p' == q then 1 else 0)
      counts_at c k p' ec ek f q =
          ap₂ (λ a b. if t' == q then a else b) (met.kept ∙ ap stays ec)
            (met.counts q ∙ ap₂ (λ a b. arrives w.num_slots t' a b q + count r (slot_at w q)) ec ek)
          ∙ f q

      pub tick-Met :
          (c k : ℕ) (p' d' : ℕ)
          → e.circle ≡ c
          → e.diff ≡ k
          → (visited e c k).removed ≡ false
          → (visited e c k).diff < w.num_slots
          → p' < w.num_slots
          → ((q : ℕ)
              → (if t' == q then stays c else arrives w.num_slots t' c k q + count r (slot_at w q))
                ≡ (if p' == q then 1 else 0))
          → due w.num_slots t' p' (visited e c k).circle (visited e c k).diff ≡ d'
          → Pending r p' d' (visited e c k) (on_tick dec w).0
      tick-Met c k p' d' ec ek live diff_in pos_in counts waits =
          tick-Pending p' d' (visited e c k) h.ticked_in met.ticked met.num (met.sized ∙ h.sized)
            (met.held ∙ ap₂ (λ a b. some (visited e a b)) ec ek) live diff_in pos_in
            (counts_at c k p' ec ek counts) waits
