-- ===== src/Collection/TimingWheel/Visit.antt =====
-- What a scan of a slot (core/collection/timingwheel.go, scanAndRunTasks) does to one entry.
use fastgozero.Prelude.{
  ℕ, zero, suc, ◌+◌, ◌%◌, ◌<◌, ◌≡◌, ◌≢◌, refl, sym, ◌∙◌, inl, inr, List, [], ◌∷◌, ◌++◌, Bool, true,
  false, none, some, arith, ◌==◌, ◌&&◌, ltb, if◌then◌else◌, Option-cases, length, set, get_or,
  length-set,
}
use fastgozero.Prelude.Cyclic.{mod-lt'}
use fastgozero.Prelude.Maps.{delete}
use fastgozero.Collection.TimingWheel.{
  Entry, Wheel, slot_at, store, push_back, relocate, visit, scan,
}
use fastgozero.Collection.TimingWheel.Due.{count, count-append}

-- A write at `p`, read at any place.
pub slot-set :
    (l : List (List ℕ)) (p q : ℕ) (s : List ℕ)
    → get_or (set l p s) q []
      ≡ (if p == q then (if ltb p (length l) then s else []) else get_or l q [])
slot-set [] p q s = ground arith
slot-set (x ∷ l) zero zero s = ground arith
slot-set (x ∷ l) zero (suc q) s = ground arith
slot-set (x ∷ l) (suc p) zero s = ground arith
slot-set (x ∷ l) (suc p) (suc q) s = ground (arith, slot-set l p q s)

module _ {K V : Type 0} where
  -- What stays as it is for reference `r`.
  pub record Untouched (r : ℕ) (w w' : Wheel K V) : Type 0 where
    pub ticked : w'.ticked_pos ≡ w.ticked_pos
    pub num : w'.num_slots ≡ w.num_slots
    pub step : w'.interval ≡ w.interval
    pub next : w'.next_ref ≡ w.next_ref
    pub sized : length w'.slots ≡ length w.slots
    pub held : w'.heap r ≡ w.heap r
    pub counts : (q : ℕ) → count r (slot_at w' q) ≡ count r (slot_at w q)

  pub Untouched-trans :
      {r : ℕ} {w w' w'' : Wheel K V} → Untouched r w w' → Untouched r w' w'' → Untouched r w w''
  Untouched-trans a b = record {
    ticked = b.ticked ∙ a.ticked;
    num = b.num ∙ a.num;
    step = b.step ∙ a.step;
    next = b.next ∙ a.next;
    sized = b.sized ∙ a.sized;
    held = b.held ∙ a.held;
    counts = λ q. b.counts q ∙ a.counts q;
  }

  pub store-Untouched :
      (r s : ℕ) (e : Entry K V) (w : Wheel K V) → s ≢ r → Untouched r w (store s e w)
  unfolding store
  store-Untouched r s e w ne = record {
    ticked = refl;
    num = refl;
    step = refl;
    next = refl;
    sized = refl;
    held = ground arith;
    counts = λ q. refl;
  }

  -- The counts after a reference is pushed to a slot.
  pub count-push_back :
      (r s p q : ℕ) (w : Wheel K V)
      → p < length w.slots
      → count r (slot_at (push_back p s w) q)
        ≡ (if p == q && s == r then 1 else 0) + count r (slot_at w q)
  unfolding push_back count
  count-push_back r s p q w h =
      ground (
        arith,
        slot-set w.slots p q (slot_at w p ++ (s ∷ [])),
        count-append r (slot_at w p) (s ∷ []),
      )

module _ {K V : Type 0} (dec : Discrete K) where
  -- The places of the slots after an entry moves by its diff.
  relocate-slots :
      (r q : ℕ) (e : Entry K V) (w : Wheel K V)
      → slot_at (relocate dec r e w) q
        ≡ slot_at (push_back ((w.ticked_pos + e.diff) % w.num_slots) r w) q
  unfolding relocate
  relocate-slots r q e w = refl

  pub relocate-Untouched :
      (r s : ℕ) (e : Entry K V) (w : Wheel K V)
      → s ≢ r
      → 0 < w.num_slots
      → length w.slots ≡ w.num_slots
      → Untouched r w (relocate dec s e w)
  unfolding relocate
  relocate-Untouched r s e w ne pos sized = record {
    ticked = refl;
    num = refl;
    step = refl;
    next = refl;
    sized = length-set w.slots _ _;
    held = ground arith;
    counts = λ q. ground (
      arith,
      count-push_back r s ((w.ticked_pos + e.diff) % w.num_slots) q w
          (rw sized (mod-lt' (w.ticked_pos + e.diff) w.num_slots pos)),
    );
  }

  -- The equations of a scan, by what it meets first.
  pub scan-none :
      (s : ℕ) (l : List ℕ) (w : Wheel K V) → w.heap s ≡ none → scan dec (s ∷ l) w ≡ scan dec l w
  unfolding scan
  scan-none s l w h = rw (h, scan)

  pub scan-visit :
      (s : ℕ) (l : List ℕ) (w : Wheel K V) (e : Entry K V)
      → w.heap s ≡ some e
      → scan dec (s ∷ l) w ≡ visit dec (scan dec l) s e e.removed e.circle e.diff w
  unfolding scan
  scan-visit s l w e h = rw (h, scan)

  -- A scan leaves reference `r` alone.
  pub record Left (r : ℕ) (w : Wheel K V) (s : Wheel K V × List ℕ × List (K × V)) : Type 0 where
    pub untouched : Untouched r w s.0
    pub dropped : count r s.1 ≡ 0

  Left-trans :
      {r : ℕ} {w w' : Wheel K V} {s : Wheel K V × List ℕ × List (K × V)}
      → Untouched r w w'
      → Left r w' s
      → Left r w s
  Left-trans a b = record { untouched = Untouched-trans a b.untouched; dropped = b.dropped }

  pub visit-Left :
      (r s : ℕ) (e : Entry K V) (b : Bool) (c d : ℕ) (w : Wheel K V)
      (next : Wheel K V → Wheel K V × List ℕ × List (K × V))
      → s ≢ r
      → 0 < w.num_slots
      → length w.slots ≡ w.num_slots
      → ((w' : Wheel K V)
          → w'.num_slots ≡ w.num_slots
          → length w'.slots ≡ length w.slots
          → Left r w' (next w'))
      → Left r w (visit dec next s e b c d w)
  unfolding visit count
  visit-Left r s e true c d w next ne pos sized go = go w refl refl
  visit-Left r s e false (suc c) d w next ne pos sized go =
      let u = store-Untouched r s (record e { circle = c }) w ne in
      let rest = Left-trans u (go (store s (record e { circle = c }) w) u.num u.sized) in
      record { untouched = rest.untouched; dropped = ground (arith, rest.dropped) }
  visit-Left r s e false zero (suc d) w next ne pos sized go =
      let u = relocate-Untouched r s e w ne pos sized in
      Left-trans u (go (relocate dec s e w) u.num u.sized)
  visit-Left r s e false zero zero w next ne pos sized go =
      let w' = record w { timers = delete dec e.key w.timers } in
      let rest = go w' refl refl in
      record {
        untouched =
            Untouched-trans
              (record {
                ticked = refl;
                num = refl;
                step = refl;
                next = refl;
                sized = refl;
                held = refl;
                counts = λ q. refl;
              })
              rest.untouched;
        dropped = rest.dropped;
      }

  -- A scan that does not meet `r` leaves it alone.
  pub scan-Left :
      (r : ℕ) (l : List ℕ) (w : Wheel K V)
      → 0 < w.num_slots
      → length w.slots ≡ w.num_slots
      → count r l ≡ 0
      → Left r w (scan dec l w)
  unfolding count
  scan-Left r [] w pos sized h =
      unfold scan in
      record {
        untouched = record {
          ticked = refl;
          num = refl;
          step = refl;
          next = refl;
          sized = refl;
          held = refl;
          counts = λ q. refl;
        };
        dropped = refl;
      }
  scan-Left r (s ∷ l) w pos sized h = elim (Option-cases (w.heap s)) [
    | inl gone ↦ rw (scan-none s l w gone) (scan-Left r l w pos sized rest)
    | inr (e, there) ↦ rw (scan-visit s l w e there) (
        visit-Left r s e e.removed e.circle e.diff w (scan dec l) ne pos sized
          (λ w' en es. scan-Left r l w' (rw en pos) (es ∙ sized ∙ sym en) rest))
  ]
    where
      ne : s ≢ r
      ne e = absurd (ground arith)

      rest : count r l ≡ 0
      rest = ground arith
