-- ===== src/Collection/TimingWheel/Fire.antt =====
-- When an entry of a timing wheel (core/collection/timingwheel.go) runs.
use mathlib.Core.Path.{ap₂, subst, subst₂}
use fastgozero.Prelude.{
  ℕ, zero, suc, ◌+◌, ◌-◌, ◌*◌, ◌%◌, ◌<◌, ◌≡◌, ◌≢◌, refl, ap, sym, ◌∙◌, ◌⊎◌, inl, inr, arith, ◌==◌,
  if◌then◌else◌, ℕ_discrete, ◌/◌,
}
use fastgozero.Prelude.Cyclic.{mod-lt', mod-ne, mod_wrap}
use native.Mathlib.Nat.{div-eq_of_lt}
use fastgozero.Collection.TimingWheel.{Entry, Wheel, slot_at, on_tick}
use fastgozero.Collection.TimingWheel.Due.{
  dist, due, dist_tick, dist_self, due_steps, count, Has, Pending,
}
use fastgozero.Collection.TimingWheel.Meet.{visited, stays, arrives, Runs}
use fastgozero.Collection.TimingWheel.Tick.{
  scanned, tick-counts, t', t'_lt, tick-waiting, met, rest, tick-Met,
}

cases-zero : (n : ℕ) → (n ≡ 0) ⊎ ((m : ℕ) × (n ≡ suc m))
cases-zero zero = inl refl
cases-zero (suc m) = inr (m, refl)

module _ {K V : Type 0} (dec : Discrete K) where
  -- The task (`key`, `value`) of reference `r` is in one slot of the wheel, and runs in `d` ticks.
  pub record Waits (r d : ℕ) (key : K) (value : V) (w : Wheel K V) : Type 0 where
    pub slot : ℕ
    pub entry : Entry K V
    pub pending : Pending r slot d entry w
    pub same_key : entry.key ≡ key
    pub same_value : entry.value ≡ value

  module _ (r p : ℕ) (e : Entry K V) (w : Wheel K V) where
    module _ (d : ℕ) (h : Pending r p (suc d) e w) (at : p ≡ (w.ticked_pos + 1) % w.num_slots) where
      abbrev now : ℕ
      now = t' dec r p e w (suc d) h

      now_lt : now < w.num_slots
      now_lt = t'_lt dec r p e w (suc d) h

      off_slot : (q : ℕ) → now ≢ q → count r (slot_at w q) ≡ 0
      off_slot q ne = h.elsewhere q (λ eq. ne (sym (eq ∙ at)))

      on_slot : count r (slot_at w now) ≡ 1
      on_slot = ap (λ k. count r (slot_at w k)) (sym at) ∙ h.once

      visit-circle : (c : ℕ) → e.circle ≡ suc c → Waits r d e.key e.value (on_tick dec w).0
      visit-circle c ec = record {
        slot = now;
        entry = visited e (suc c) e.diff;
        pending =
            tick-Met dec r p e w (suc d) h at (suc c) e.diff now d ec refl
              (unfold visited in h.live) (unfold visited in h.diff_in) now_lt places
              (unfold visited due in
                omega (
                  arith,
                  rest dec r p e w (suc d) h at,
                  ap (λ k. k * w.num_slots) ec,
                  dist_self w.num_slots now now_lt,
                ));
        same_key = unfold visited in refl;
        same_value = unfold visited in refl;
      }
        where
          places :
              (q : ℕ)
              → (if now == q
                  then stays (suc c)
                  else arrives w.num_slots now (suc c) e.diff q + count r (slot_at w q))
                ≡ (if now == q then 1 else 0)
          places q = elim (ℕ_discrete now q) [
            | yes same ↦ unfold stays in ground arith
            | no ne ↦ unfold arrives in ground (arith, off_slot q ne)
          ]

      visit-diff :
          (k : ℕ) → e.circle ≡ 0 → e.diff ≡ suc k → Waits r d e.key e.value (on_tick dec w).0
      visit-diff k ec ek = record {
        slot = (now + suc k) % w.num_slots;
        entry = visited e zero (suc k);
        pending =
            tick-Met dec r p e w (suc d) h at zero (suc k) ((now + suc k) % w.num_slots) d ec ek
              (unfold visited in h.live) (unfold visited in omega (arith, now_lt))
              (mod-lt' (now + suc k) w.num_slots (omega (arith, now_lt))) places
              (unfold visited in waits);
        same_key = unfold visited in refl;
        same_value = unfold visited in refl;
      }
        where
          k_lt : suc k < w.num_slots
          k_lt = omega (arith, h.diff_in)

          other : (now + suc k) % w.num_slots ≢ now
          other eq =
              mod-ne w.num_slots now 0 (suc k) now_lt (omega arith) k_lt (
                eq ∙ ground (arith, now_lt, mod_wrap (now + 0) w.num_slots (omega (arith, now_lt))))

          places :
              (q : ℕ)
              → (if now == q
                  then stays zero
                  else arrives w.num_slots now zero (suc k) q + count r (slot_at w q))
                ≡ (if ((now + suc k) % w.num_slots) == q then 1 else 0)
          places q = elim (ℕ_discrete now q) [
            | yes same ↦ unfold stays in ground (arith, other)
            | no ne ↦ unfold arrives in ground (arith, off_slot q ne)
          ]

          waits : due w.num_slots now ((now + suc k) % w.num_slots) e.circle 0 ≡ d
          waits =
              ap (λ c. due w.num_slots now ((now + suc k) % w.num_slots) c 0)
                (ec
                  ∙ sym (
                      ap (λ a. a / w.num_slots) {x = suc k - 1} {y = k} (omega arith)
                      ∙ div-eq_of_lt (omega arith)))
              ∙ due_steps w.num_slots now (suc k) now_lt (omega arith)
              ∙ omega (arith, rest dec r p e w (suc d) h at, ap (λ c. c * w.num_slots) ec)

    -- One tick before it runs, or earlier: a tick brings it one nearer.
    pub on_tick-Waits :
        (d : ℕ) → Pending r p (suc d) e w → 0 < d → Waits r d e.key e.value (on_tick dec w).0
    on_tick-Waits d h pos = elim (ℕ_discrete p ((w.ticked_pos + 1) % w.num_slots)) [
      | no ne ↦ record {
        slot = p;
        entry = e;
        pending =
            subst (λ k. Pending r p k e (on_tick dec w).0) {x = suc d - 1} {y = d} (omega arith)
              (tick-waiting dec r p e w (suc d) h ne);
        same_key = refl;
        same_value = refl;
      }
      | yes at ↦ elim (cases-zero e.circle) [
        | inr (c, ec) ↦ visit-circle d h at c ec
        | inl ec ↦ elim (cases-zero e.diff) [
          | inr (k, ek) ↦ visit-diff d h at k ec ek
          | inl ek ↦
              absurd (omega (arith, rest dec r p e w (suc d) h at, ap (λ c. c * w.num_slots) ec))
        ]
      ]
    ]

    -- When it is due, the tick runs it and drops it from every slot.
    pub on_tick-runs :
        Pending r p 1 e w
        → Has (e.key, e.value) (on_tick dec w).1
          × ((q : ℕ) → count r (slot_at (on_tick dec w).0 q) ≡ 0)
    on_tick-runs h = elim (ℕ_discrete p ((w.ticked_pos + 1) % w.num_slots)) [
      | no ne ↦ absurd (
          unfold due dist in
          ground (arith, h.waits, dist_tick w.num_slots w.ticked_pos p h.ticked_in h.pos_in))
      | yes at ↦ elim (cases-zero e.circle) [
        | inr (c, ec) ↦
            absurd (omega (arith, rest dec r p e w 1 h at, ap (λ k. k * w.num_slots) ec, h.pos_in))
        | inl ec ↦ due_now at ec (omega (arith, rest dec r p e w 1 h at))
      ]
    ]
      where
        due_now :
            p ≡ (w.ticked_pos + 1) % w.num_slots
            → e.circle ≡ 0
            → e.diff ≡ 0
            → Has (e.key, e.value) (on_tick dec w).1
              × ((q : ℕ) → count r (slot_at (on_tick dec w).0 q) ≡ 0)
        due_now at ec ek =
            let m = met dec r p e w 1 h at in
            (
              unfold on_tick in subst₂ (λ c k. Runs e c k (scanned dec r p e w).2) ec ek m.runs,
              λ q.
                  tick-counts dec r p e w q (m.sized ∙ h.sized) h.ticked_in
                  ∙ ap₂ (λ a b. if (w.ticked_pos + 1) % w.num_slots == q then a else b)
                      (m.kept ∙ ap stays ec)
                      (m.counts q
                        ∙ ap₂
                            (λ c k.
                              arrives w.num_slots (t' dec r p e w 1 h) c k q
                              + count r (slot_at w q))
                            ec ek)
                  ∙ gone at q,
            )
          where
            gone :
                p ≡ (w.ticked_pos + 1) % w.num_slots
                → (q : ℕ)
                → (if (w.ticked_pos + 1) % w.num_slots == q
                    then stays 0
                    else arrives w.num_slots (t' dec r p e w 1 h) 0 0 q + count r (slot_at w q))
                  ≡ 0
            gone at q = elim (ℕ_discrete ((w.ticked_pos + 1) % w.num_slots) q) [
              | yes same ↦ unfold stays in ground arith
              | no ne ↦ unfold arrives in ground (arith, h.elsewhere q (λ eq. ne (sym (eq ∙ at))))
            ]
