-- ===== src/Collection/TimingWheel/Quiet.antt =====
-- A timing wheel (core/collection/timingwheel.go) in which one task of a key waits: until the tick at
-- which it is due, ticks run no task of the key.
use mathlib.Core.Path.{subst}
use fastgozero.Prelude.{
  ℕ, suc, ◌+◌, ◌*◌, ◌%◌, ◌<◌, ◌≡◌, ◌≢◌, ◌⊎◌, sym, ap, ◌∙◌, inl, inr, List, [], ◌∷◌, ◌++◌, some,
  arith, ◌==◌, ◌&&◌, if◌then◌else◌, length, get_or, ℕ_discrete,
}
use fastgozero.Collection.TimingWheel.{Entry, Wheel, slot_at, push_back, on_tick}
use fastgozero.Collection.TimingWheel.Due.{count, Pending}
use fastgozero.Collection.TimingWheel.Visit.{scan-Left, count-push_back}
use fastgozero.Collection.TimingWheel.Tick.{turned, scanned, tick-counts, t', rest}
use fastgozero.Collection.TimingWheel.Silent.{
  NoneOf, IsOther, IsEarly, Silent_lem, scan-NoneOf, scan-IsOther,
}

module _ {K V : Type 0} where
  -- Every other reference is in no slot, or has an entry that is removed or of another key.
  pub record IsAlone (k : K) (r : ℕ) (w : Wheel K V) : Type 0 where
    pub others : (q : ℕ) → q ≢ r → IsOther k (w.heap q) ⊎ ((p : ℕ) → count q (slot_at w p) ≡ 0)

  -- What pushes reference `r` to a slot, and writes to no other, leaves it alone.
  pub push_back-IsAlone :
      (k : K) (r p : ℕ) (w w' : Wheel K V)
      → p < length w.slots
      → ((q : ℕ) → q ≢ r → w'.heap q ≡ w.heap q)
      → w'.slots ≡ (push_back p r w).slots
      → IsAlone k r w
      → IsAlone k r w'
  push_back-IsAlone k r p w w' lt heap slots alone = record {
    others = λ q ne. elim (alone.others q ne) [
      | inl other ↦ inl (subst (IsOther k) (sym (heap q ne)) other)
      | inr nowhere ↦ inr (λ i.
          ap (λ l. count q (get_or l i [])) slots
          ∙ count-push_back q r p i w lt
          ∙ none_more i q ne (nowhere i))
    ];
  }
    where
      none_more :
          (i q : ℕ)
          → q ≢ r
          → count q (slot_at w i) ≡ 0
          → (if p == i && r == q then 1 else 0) + count q (slot_at w i) ≡ 0
      none_more i q ne h = ground arith

  pub NoneOf-append :
      (k : K) (xs ys : List (K × V)) → NoneOf k xs → NoneOf k ys → NoneOf k (xs ++ ys)
  NoneOf-append k [] ys h g = g
  NoneOf-append k (x ∷ xs) ys h g = (h.0, NoneOf-append k xs ys h.1 g)

module _ {K V : Type 0} (dec : Discrete K) (k : K) (r p : ℕ) (e : Entry K V) (w : Wheel K V) where
  -- A tick before the one at which the task is due.
  pub on_tick-NoneOf :
      (d : ℕ) → Pending r p (suc d) e w → 0 < d → IsAlone k r w → NoneOf k (on_tick dec w).1
  on_tick-NoneOf d h pos alone =
      unfold on_tick in
      scan-NoneOf dec k (slot_at w now) (turned dec r p e w)
        (Silent_lem k (slot_at w now) w.heap met_now)
    where
      now : ℕ
      now = t' dec r p e w (suc d) h

      early : p ≡ now → IsEarly (some e)
      early at = elim (ℕ_discrete e.circle 0) [
        | yes none_left ↦
            inr (omega (arith, rest dec r p e w (suc d) h at, ap (λ c. c * w.num_slots) none_left))
        | no some_left ↦ inl (omega (arith, some_left))
      ]

      met_now :
          (q : ℕ)
          → (IsOther k (w.heap q) ⊎ (IsEarly (w.heap q) × (count q (slot_at w now) ≡ 1)))
            ⊎ (count q (slot_at w now) ≡ 0)
      met_now q = elim (ℕ_discrete q r) [
        | yes same ↦ elim (ℕ_discrete p now) [
          | yes at ↦ inl (
              inr (
                subst IsEarly (sym h.held ∙ ap w.heap (sym same)) (early at),
                ap (λ x. count x (slot_at w now)) same
                    ∙ ap (λ x. count r (slot_at w x)) (sym at)
                    ∙ h.once,
              ))
          | no off ↦
              inr (ap (λ x. count x (slot_at w now)) same ∙ h.elsewhere now (λ eq. off (sym eq)))
        ]
        | no ne ↦ elim (alone.others q ne) [
          | inl other ↦ inl (inl other)
          | inr nowhere ↦ inr (nowhere now)
        ]
      ]

  pub on_tick-IsAlone : (d : ℕ) → Pending r p d e w → IsAlone k r w → IsAlone k r (on_tick dec w).0
  on_tick-IsAlone d h alone = record { others = still }
    where
      still :
          (q : ℕ)
          → q ≢ r
          → IsOther k ((on_tick dec w).0.heap q)
            ⊎ ((i : ℕ) → count q (slot_at (on_tick dec w).0 i) ≡ 0)
      still q ne = elim (alone.others q ne) [
        | inl other ↦ inl (
            unfold on_tick in
            scan-IsOther dec k q (slot_at w ((w.ticked_pos + 1) % w.num_slots)) (turned dec r p e w)
              other)
        | inr nowhere ↦
            let left =
              scan-Left dec q (slot_at w ((w.ticked_pos + 1) % w.num_slots)) (turned dec r p e w)
                (omega (arith, h.ticked_in)) h.sized (nowhere ((w.ticked_pos + 1) % w.num_slots)) in
            inr (λ i.
              tick-counts dec q p e w i (left.untouched.sized ∙ h.sized) h.ticked_in
              ∙ none_at i (left.untouched.counts i ∙ nowhere i) left.dropped)
      ]
        where
          none_at :
              (i : ℕ)
              → count q (slot_at (scanned dec q p e w).0 i) ≡ 0
              → count q (scanned dec q p e w).1 ≡ 0
              → (if (w.ticked_pos + 1) % w.num_slots == i
                  then count q (scanned dec q p e w).1
                  else count q (slot_at (scanned dec q p e w).0 i))
                ≡ 0
          none_at i a b = ground arith
