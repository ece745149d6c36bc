-- ===== src/Collection/TimingWheel/Sound.antt =====
-- What a tick of a timing wheel (core/collection/timingwheel.go, onTick) may run.
use fastgozero.Prelude.{
  ℕ, zero, suc, ◌+◌, ◌%◌, ◌≡◌, ◌≢◌, refl, ap, sym, ◌∙◌, inl, inr, List, [], ◌∷◌, Bool, true, false,
  some, arith, ◌==◌, if◌then◌else◌, Option-cases, ℕ_discrete,
}
use mathlib.Core.Option.{some-injective}
use mathlib.Core.Path.{subst}
use fastgozero.Prelude.Maps.{delete}
use fastgozero.Collection.TimingWheel.{Entry, Wheel, slot_at, store, relocate, visit, scan, on_tick}
use fastgozero.Collection.TimingWheel.Due.{Has}
use fastgozero.Collection.TimingWheel.Visit.{scan-none, scan-visit}

module _ {K V : Type 0} where
  -- Reference `r` holds a live entry of this task.
  abbrev pub LiveAt : ℕ → K → V → Wheel K V → Type 0
  LiveAt r k v w =
      (e : Entry K V) × (w.heap r ≡ some e) × (e.removed ≡ false) × (e.key ≡ k) × (e.value ≡ v)

  -- What is live in `w'` was live in `w`, as the same task.
  abbrev Older : Wheel K V → Wheel K V → Type 0
  Older w w' = (r : ℕ) (k : K) (v : V) → LiveAt r k v w' → LiveAt r k v w

  -- A write that keeps the task and whether it was removed.
  store-Older :
      (s : ℕ) (e o : Entry K V) (w : Wheel K V)
      → w.heap s ≡ some o
      → o.removed ≡ e.removed
      → o.key ≡ e.key
      → o.value ≡ e.value
      → Older w (store s e w)
  unfolding store
  store-Older s e o w held same_removed same_key same_value r k v (f, at, live, key, value) =
      elim (ℕ_discrete s r) [
        | yes here ↦
            (let same : e ≡ f = some-injective e f (sym (unread here) ∙ at) in
              (
                o,
                ap w.heap (sym here) ∙ held,
                same_removed ∙ ap (λ x. x.removed) same ∙ live,
                same_key ∙ ap (λ x. x.key) same ∙ key,
                same_value ∙ ap (λ x. x.value) same ∙ value,
              ))
        | no other ↦ (f, sym (unwritten other) ∙ at, live, key, value)
      ]
    where
      unread : s ≡ r → (if s == r then some e else w.heap r) ≡ some e
      unread here = ground arith

      unwritten : s ≢ r → (if s == r then some e else w.heap r) ≡ w.heap r
      unwritten other = ground arith

module _ {K V : Type 0} (dec : Discrete K) where
  visit_sound :
      {P : Type 0} (k : K) (v : V) (next : Wheel K V → Wheel K V × List ℕ × List (K × V)) (s : ℕ)
      (e : Entry K V) (b : Bool) (c d : ℕ) (w : Wheel K V)
      → w.heap s ≡ some e
      → e.removed ≡ b
      → ((w' : Wheel K V) → Older w w' → Has (k, v) (next w').2 → P)
      → (LiveAt s k v w → P)
      → Has (k, v) (visit dec next s e b c d w).2
      → P
  unfolding visit relocate store
  visit_sound k v next s e true c d w held was go here h = go w (λ r j x l. l) h
  visit_sound k v next s e false (suc c) d w held was go here h =
      go (store s (record e { circle = c }) w)
        (store-Older s (record e { circle = c }) e w held refl refl refl) h
  visit_sound k v next s e false zero (suc d) w held was go here h =
      go (relocate dec s e w) (store-Older s (record e { diff = 0 }) e w held refl refl refl) h
  visit_sound k v next s e false zero zero w held was go here (inl same) =
      here (e, held, was, ap (λ t. t.0) (sym same), ap (λ t. t.1) (sym same))
  visit_sound k v next s e false zero zero w held was go here (inr h) =
      go (record w { timers = delete dec e.key w.timers }) (λ r j x l. l) h

  scan_sound :
      (k : K) (v : V) (l : List ℕ) (w0 w : Wheel K V)
      → Older w0 w
      → Has (k, v) (scan dec l w).2
      → (r : ℕ) × Has r l × LiveAt r k v w0
  scan_sound k v [] w0 w old h = absurd (unfold scan in h)
  scan_sound k v (s ∷ l) w0 w old h = elim (Option-cases (w.heap s)) [
    | inl gone ↦
        later (scan_sound k v l w0 w old (subst (λ t. Has (k, v) t.2) (scan-none dec s l w gone) h))
    | inr (e, there) ↦
        visit_sound k v (scan dec l) s e e.removed e.circle e.diff w there refl
          (λ w' o t. later (scan_sound k v l w0 w' (λ r j x a. old r j x (o r j x a)) t))
          (λ live. (s, inl refl, old s k v live))
          (subst (λ t. Has (k, v) t.2) (scan-visit dec s l w e there) h)
  ]
    where
      later : ((r : ℕ) × Has r l × LiveAt r k v w0) → (r : ℕ) × Has r (s ∷ l) × LiveAt r k v w0
      later (r, has, live) = (r, inr has, live)

  -- A tick runs only tasks of entries that stand in the slot it visits and were not removed.
  pub on_tick_sound :
      (k : K) (v : V) (w : Wheel K V)
      → Has (k, v) (on_tick dec w).1
      → (r : ℕ) × Has r (slot_at w ((w.ticked_pos + 1) % w.num_slots)) × LiveAt r k v w
  unfolding on_tick
  on_tick_sound k v w h =
      let p = (w.ticked_pos + 1) % w.num_slots in
      scan_sound k v (slot_at w p) w (record w { ticked_pos = p }) (λ r j x l. l) h
