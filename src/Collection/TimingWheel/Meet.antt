-- ===== src/Collection/TimingWheel/Meet.antt =====
-- What a scan (core/collection/timingwheel.go, scanAndRunTasks) does to an entry that it meets once.
use mathlib.Core.Path.{subst₂}
use fastgozero.Prelude.{
  ℕ, zero, suc, ◌+◌, ◌%◌, ◌<◌, ◌≡◌, ◌≢◌, refl, ap, sym, ◌∙◌, inl, inr, List, [], ◌∷◌, Bool, true,
  false, some, arith, ◌==◌, if◌then◌else◌, Option-cases, length, length-set, ℕ_discrete,
}
use fastgozero.Prelude.Cyclic.{mod-lt'}
use fastgozero.Prelude.Maps.{delete}
use fastgozero.Collection.TimingWheel.{Entry, Wheel, slot_at, store, relocate, visit, scan}
use fastgozero.Collection.TimingWheel.Due.{count, Has}
use fastgozero.Collection.TimingWheel.Visit.{
  Untouched, store-Untouched, relocate-Untouched, count-push_back, Left, scan-none, scan-visit,
  scan-Left,
}

-- How often it stays in the slot.
unfoldable pub stays : ℕ → ℕ
stays (suc c) = 1
stays zero = 0

-- How often it comes to slot `q`, of `n`, from slot `t`.
unfoldable pub arrives : ℕ → ℕ → ℕ → ℕ → ℕ → ℕ
arrives n t zero (suc d) q = if (t + suc d) % n == q then 1 else 0
arrives n t c d q = 0

module _ {K V : Type 0} where
  -- The entry after a visit, by its circle and diff before.
  unfoldable pub visited : Entry K V → ℕ → ℕ → Entry K V
  visited e (suc c) d = record e { circle = c }
  visited e zero (suc d) = record e { diff = 0 }
  visited e zero zero = e

  -- It runs if it has no circle and no diff left.
  abbrev pub Runs : Entry K V → ℕ → ℕ → List (K × V) → Type 0
  Runs e zero zero tasks = Has (e.key, e.value) tasks
  Runs e c d tasks = Unit

  pub record Met (r : ℕ) (e : Entry K V) (c d : ℕ) (w : Wheel K V)
      (s : Wheel K V × List ℕ × List (K × V)) : Type 0 where
    pub ticked : s.0.ticked_pos ≡ w.ticked_pos
    pub num : s.0.num_slots ≡ w.num_slots
    pub sized : length s.0.slots ≡ length w.slots
    pub held : s.0.heap r ≡ some (visited e c d)
    pub counts :
        (q : ℕ)
        → count r (slot_at s.0 q) ≡ arrives w.num_slots w.ticked_pos c d q + count r (slot_at w q)
    pub kept : count r s.1 ≡ stays c
    pub runs : Runs e c d s.2

  -- Met after steps that leave `r` alone.
  Met-before :
      {r : ℕ} {e : Entry K V} (c d : ℕ) {w w' : Wheel K V} {s : Wheel K V × List ℕ × List (K × V)}
      → Untouched r w w'
      → Met r e c d w' s
      → Met r e c d w s
  Met-before {r} {e} c d {w} {w'} {s} u m = record {
    ticked = m.ticked ∙ u.ticked;
    num = m.num ∙ u.num;
    sized = m.sized ∙ u.sized;
    held = m.held;
    counts = λ q. m.counts q ∙ same q;
    kept = m.kept;
    runs = m.runs;
  }
    where
      same :
          (q : ℕ)
          → arrives w'.num_slots w'.ticked_pos c d q + count r (slot_at w' q)
            ≡ arrives w.num_slots w.ticked_pos c d q + count r (slot_at w q)
      same q =
          ap (λ k. arrives k w'.ticked_pos c d q + count r (slot_at w' q)) u.num
          ∙ ap (λ k. arrives w.num_slots k c d q + count r (slot_at w' q)) u.ticked
          ∙ ap (λ k. arrives w.num_slots w.ticked_pos c d q + k) (u.counts q)

  Runs-more :
      (e : Entry K V) (c d : ℕ) (x : K × V) (tasks : List (K × V))
      → Runs e c d tasks
      → Runs e c d (x ∷ tasks)
  Runs-more e zero zero x tasks h = inr h
  Runs-more e zero (suc d) x tasks h = tt
  Runs-more e (suc c) d x tasks h = tt

module _ {K V : Type 0} (dec : Discrete K) where
  -- A visit of another entry.
  visit_other :
      (r : ℕ) (e : Entry K V) (c d : ℕ) (s : ℕ) (o : Entry K V) (b : Bool) (c' d' : ℕ)
      (w : Wheel K V) (next : Wheel K V → Wheel K V × List ℕ × List (K × V))
      → s ≢ r
      → 0 < w.num_slots
      → length w.slots ≡ w.num_slots
      → ((w' : Wheel K V) → Untouched r w w' → Met r e c d w' (next w'))
      → Met r e c d w (visit dec next s o b c' d' w)
  unfolding visit
  visit_other r e c d s o true c' d' w next ne pos sized go = go w (record {
    ticked = refl;
    num = refl;
    step = refl;
    next = refl;
    sized = refl;
    held = refl;
    counts = λ q. refl;
  })
  visit_other r e c d s o false (suc c') d' w next ne pos sized go =
      let u = store-Untouched r s (record o { circle = c' }) w ne in
      let m = Met-before c d u (go (store s (record o { circle = c' }) w) u) in
      record {
        ticked = m.ticked;
        num = m.num;
        sized = m.sized;
        held = m.held;
        counts = m.counts;
        kept = skip _ m.kept;
        runs = m.runs;
      }
    where
      skip : (l : List ℕ) → count r l ≡ stays c → count r (s ∷ l) ≡ stays c
      skip l h = unfold count in ground arith
  visit_other r e c d s o false zero (suc d') w next ne pos sized go =
      let u = relocate-Untouched dec r s o w ne pos sized in
      Met-before c d u (go (relocate dec s o w) u)
  visit_other r e c d s o false zero zero w next ne pos sized go =
      let w' = record w { timers = delete dec o.key w.timers } in
      let u : Untouched r w w' = record {
        ticked = refl;
        num = refl;
        step = refl;
        next = refl;
        sized = refl;
        held = refl;
        counts = λ q. refl;
      } in
      let m = Met-before c d u (go w' u) in
      record {
        ticked = m.ticked;
        num = m.num;
        sized = m.sized;
        held = m.held;
        counts = m.counts;
        kept = m.kept;
        runs = Runs-more e c d (o.key, o.value) _ m.runs;
      }

  -- The visit of the entry itself, with a rest of the scan that leaves it alone.
  visit_self :
      (r : ℕ) (e : Entry K V) (c d : ℕ) (w : Wheel K V)
      (next : Wheel K V → Wheel K V × List ℕ × List (K × V))
      → 0 < w.num_slots
      → length w.slots ≡ w.num_slots
      → w.heap r ≡ some e
      → e.circle ≡ c
      → e.diff ≡ d
      → ((w' : Wheel K V)
          → w'.num_slots ≡ w.num_slots
          → length w'.slots ≡ length w.slots
          → Left dec r w' (next w'))
      → Met r e c d w (visit dec next r e false c d w)
  unfolding visit stays arrives visited
  visit_self r e (suc c) d w next pos sized held ec ed go =
      let w' = store r (record e { circle = c }) w in
      let m = go w' (unfold store in refl) (unfold store in refl) in
      record {
        ticked = m.untouched.ticked ∙ (unfold store in refl);
        num = m.untouched.num ∙ (unfold store in refl);
        sized = m.untouched.sized ∙ (unfold store in refl);
        held = m.untouched.held ∙ (unfold store in ground arith);
        counts = λ q. m.untouched.counts q ∙ (unfold store in omega arith);
        kept = unfold count in ground (arith, m.dropped);
        runs = tt;
      }
  visit_self r e zero (suc d) w next pos sized held ec ed go =
      let w' = relocate dec r e w in
      let m = go w' (unfold relocate in refl) (unfold relocate in length-set w.slots _ _) in
      record {
        ticked = m.untouched.ticked ∙ (unfold relocate in refl);
        num = m.untouched.num ∙ (unfold relocate in refl);
        sized = m.untouched.sized ∙ (unfold relocate in length-set w.slots _ _);
        held = m.untouched.held ∙ (unfold relocate in ground arith);
        counts = λ q. m.untouched.counts q ∙ moved q;
        kept = m.dropped;
        runs = tt;
      }
    where
      moved :
          (q : ℕ)
          → count r (slot_at (relocate dec r e w) q)
            ≡ (if (w.ticked_pos + suc d) % w.num_slots == q then 1 else 0) + count r (slot_at w q)
      moved q =
          unfold relocate in
          ground (
            arith,
            count-push_back r r ((w.ticked_pos + e.diff) % w.num_slots) q w
                (rw sized (mod-lt' (w.ticked_pos + e.diff) w.num_slots pos)),
            ap (λ k. (w.ticked_pos + k) % w.num_slots) ed,
          )
  visit_self r e zero zero w next pos sized held ec ed go =
      let m = go (record w { timers = delete dec e.key w.timers }) refl refl in
      record {
        ticked = m.untouched.ticked;
        num = m.untouched.num;
        sized = m.untouched.sized;
        held = m.untouched.held ∙ held;
        counts = λ q. m.untouched.counts q ∙ (omega arith);
        kept = m.dropped;
        runs = inl refl;
      }

  -- A scan that meets the live entry `r` once.
  pub scan-Met :
      (r : ℕ) (e : Entry K V) (l : List ℕ) (w : Wheel K V)
      → 0 < w.num_slots
      → length w.slots ≡ w.num_slots
      → w.heap r ≡ some e
      → e.removed ≡ false
      → count r l ≡ 1
      → Met r e e.circle e.diff w (scan dec l w)
  unfolding count
  scan-Met r e [] w pos sized held live once = absurd (omega arith)
  scan-Met r e (s ∷ l) w pos sized held live once = elim (ℕ_discrete s r) [
    | yes same ↦ rw (scan-visit dec s l w e (ap w.heap same ∙ held)) (
        subst₂ (λ b q. Met r e e.circle e.diff w (visit dec (scan dec l) q e b e.circle e.diff w))
          (sym live) (sym same)
          (visit_self r e e.circle e.diff w (scan dec l) pos sized held refl refl
            (λ w' en es. scan-Left dec r l w' (rw en pos) (es ∙ sized ∙ sym en) (ground arith))))
    | no ne ↦ elim (Option-cases (w.heap s)) [
      | inl gone ↦
          rw (scan-none dec s l w gone) (scan-Met r e l w pos sized held live (ground arith))
      | inr (o, there) ↦ rw (scan-visit dec s l w o there) (
          visit_other r e e.circle e.diff s o o.removed o.circle o.diff w (scan dec l) ne pos sized
            (λ w' u.
              scan-Met r e l w' (rw u.num pos) (u.sized ∙ sized ∙ sym u.num) (u.held ∙ held) live
                (ground arith)))
    ]
  ]
