-- ===== src/Collection/TimingWheel/Silent.antt =====
-- When a scan of a slot (core/collection/timingwheel.go, scanAndRunTasks) runs no task of a key.
use mathlib.Core.Path.{subst}
use fastgozero.Prelude.{
  ℕ, zero, suc, ◌<◌, ◌≡◌, ◌≢◌, ◌⊎◌, sym, ap, ◌∙◌, inl, inr, List, [], ◌∷◌, Bool, true, false,
  Option, none, some, arith, ◌==◌, if◌then◌else◌, Option-cases, ℕ_discrete,
}
use fastgozero.Prelude.Maps.{delete}
use fastgozero.Collection.TimingWheel.{Entry, Wheel, store, relocate, visit, scan}
use fastgozero.Collection.TimingWheel.Due.{count}
use fastgozero.Collection.TimingWheel.Visit.{scan-none, scan-visit}

module _ {K V : Type 0} where
  -- No task of the key.
  abbrev pub NoneOf : K → List (K × V) → Type 0
  NoneOf k [] = Unit {0}
  NoneOf k (task ∷ tasks) = (task.0 ≢ k) × NoneOf k tasks

  -- An entry whose task is of another key or removed.
  abbrev pub IsOther : K → Option (Entry K V) → Type 0
  IsOther k none = Unit {0}
  IsOther k (some e) = (e.key ≢ k) ⊎ (e.removed ≡ true)

  -- An entry that has turns or steps to wait.
  abbrev pub IsEarly : Option (Entry K V) → Type 0
  IsEarly none = Unit {0}
  IsEarly (some e) = (0 < e.circle) ⊎ (0 < e.diff)

  -- What a scan of these references runs is not of the key: each is of another key, or is early and
  -- does not come again.
  abbrev pub Silent : K → List ℕ → (ℕ → Option (Entry K V)) → Type 0
  Silent k [] heap = Unit {0}
  Silent k (r ∷ l) heap =
      (IsOther k (heap r) ⊎ (IsEarly (heap r) × (count r l ≡ 0))) × Silent k l heap

  -- A write that keeps key and removal keeps the rest of the list silent.
  Silent-store :
      (k : K) (s : ℕ) (e' : Entry K V) (l : List ℕ) (heap : ℕ → Option (Entry K V))
      → IsOther k (some e') ⊎ (count s l ≡ 0)
      → Silent k l heap
      → Silent k l (λ q. if s == q then some e' else heap q)
  unfolding count
  Silent-store k s e' [] heap other h = tt
  Silent-store k s e' (r ∷ l) heap other h = elim (ℕ_discrete s r) [
    | yes same ↦
        let at : (if s == r then some e' else heap r) ≡ some e' = ground (arith, same) in
        elim other [
          | inl dead ↦ (
            subst (λ o. IsOther k o ⊎ (IsEarly o × (count r l ≡ 0))) (sym at) (inl dead),
            Silent-store k s e' l heap (inl dead) h.1,
          )
          | inr gone ↦ absurd (ground (arith, gone, same))
        ]
    | no ne ↦
        let at : (if s == r then some e' else heap r) ≡ heap r = ground (arith, ne) in
        (
          subst (λ o. IsOther k o ⊎ (IsEarly o × (count r l ≡ 0))) (sym at) h.0,
          Silent-store k s e' l heap
              (elim other [ inl dead ↦ inl dead | inr gone ↦ inr (ground (arith, gone, ne)) ]) h.1,
        )
  ]

  -- Of references that stand in a list once or whose entries are of another key.
  pub Silent_lem :
      (k : K) (l : List ℕ) (heap : ℕ → Option (Entry K V))
      → ((q : ℕ) → (IsOther k (heap q) ⊎ (IsEarly (heap q) × (count q l ≡ 1))) ⊎ (count q l ≡ 0))
      → Silent k l heap
  unfolding count
  Silent_lem k [] heap f = tt
  Silent_lem k (r ∷ l) heap f = (head (f r), Silent_lem k l heap (λ q. rest q (f q)))
    where
      head :
          (IsOther k (heap r) ⊎ (IsEarly (heap r) × (count r (r ∷ l) ≡ 1))) ⊎ (count r (r ∷ l) ≡ 0)
          → IsOther k (heap r) ⊎ (IsEarly (heap r) × (count r l ≡ 0))
      head (inl (inl other)) = inl other
      head (inl (inr (early, once))) = inr (early, ground (arith, once))
      head (inr gone) = absurd (ground (arith, gone))

      rest :
          (q : ℕ)
          → (IsOther k (heap q) ⊎ (IsEarly (heap q) × (count q (r ∷ l) ≡ 1)))
            ⊎ (count q (r ∷ l) ≡ 0)
          → (IsOther k (heap q) ⊎ (IsEarly (heap q) × (count q l ≡ 1))) ⊎ (count q l ≡ 0)
      rest q (inl (inl other)) = inl (inl other)
      rest q (inl (inr (early, once))) = elim (ℕ_discrete r q) [
        | yes same ↦ inr (ground (arith, once, same))
        | no ne ↦ inl (inr (early, ground (arith, once, ne)))
      ]
      rest q (inr gone) = inr (ground (arith, gone))

module _ {K V : Type 0} (dec : Discrete K) (k : K) where
  visit-NoneOf :
      (l : List ℕ) (r : ℕ) (e : Entry K V) (b : Bool) (c d : ℕ) (w : Wheel K V)
      → (IsOther k (some e) ⊎ (count r l ≡ 0))
      → ((e.key ≢ k) ⊎ (b ≡ true)) ⊎ ((0 < c) ⊎ (0 < d))
      → ((w' : Wheel K V) → Silent k l w'.heap → NoneOf k (scan dec l w').2)
      → Silent k l w.heap
      → NoneOf k (visit dec (scan dec l) r e b c d w).2
  unfolding visit relocate store
  visit-NoneOf l r e true c d w other kind go h = go w h
  visit-NoneOf l r e false (suc c) d w other kind go h =
      go (store r (record e { circle = c }) w)
        (Silent-store k r (record e { circle = c }) l w.heap other h)
  visit-NoneOf l r e false zero (suc d) w other kind go h =
      go (relocate dec r e w) (Silent-store k r (record e { diff = 0 }) l w.heap other h)
  visit-NoneOf l r e false zero zero w other (inl (inl ne)) go h =
      (ne, go (record w { timers = delete dec e.key w.timers }) h)
  visit-NoneOf l r e false zero zero w other (inl (inr gone)) go h = absurd cc
  visit-NoneOf l r e false zero zero w other (inr (inl more)) go h = absurd (omega arith)
  visit-NoneOf l r e false zero zero w other (inr (inr more)) go h = absurd (omega arith)

  pub scan-NoneOf : (l : List ℕ) (w : Wheel K V) → Silent k l w.heap → NoneOf k (scan dec l w).2
  scan-NoneOf [] w h = unfold scan in tt
  scan-NoneOf (r ∷ l) w h = elim (Option-cases (w.heap r)) [
    | inl gone ↦ rw (scan-none dec r l w gone) (scan-NoneOf l w h.1)
    | inr (e, there) ↦
        let here = subst (λ o. IsOther k o ⊎ (IsEarly o × (count r l ≡ 0))) there h.0 in
        rw (scan-visit dec r l w e there) (
          visit-NoneOf l r e e.removed e.circle e.diff w
            (elim here [ inl o ↦ inl o | inr (early, once) ↦ inr once ])
            (elim here [ inl o ↦ inl o | inr (early, once) ↦ inr early ]) (λ w'. scan-NoneOf l w')
            h.1)
  ]

  -- A scan writes neither keys nor removals.
  store-IsOther :
      (r q : ℕ) (e e' : Entry K V) (heap : ℕ → Option (Entry K V))
      → heap r ≡ some e
      → (IsOther k (some e) → IsOther k (some e'))
      → IsOther k (heap q)
      → IsOther k (if r == q then some e' else heap q)
  store-IsOther r q e e' heap there same h = elim (ℕ_discrete r q) [
    | yes at ↦
        let new : (if r == q then some e' else heap q) ≡ some e' = ground (arith, at) in
        subst (IsOther k) (sym new) (same (subst (IsOther k) (ap heap (sym at) ∙ there) h))
    | no ne ↦
        let old : (if r == q then some e' else heap q) ≡ heap q = ground (arith, ne) in
        subst (IsOther k) (sym old) h
  ]

  visit-IsOther :
      (next : Wheel K V → Wheel K V × List ℕ × List (K × V)) (q r : ℕ) (e : Entry K V) (b : Bool)
      (c d : ℕ) (w : Wheel K V)
      → w.heap r ≡ some e
      → ((w' : Wheel K V) → IsOther k (w'.heap q) → IsOther k ((next w').0.heap q))
      → IsOther k (w.heap q)
      → IsOther k ((visit dec next r e b c d w).0.heap q)
  unfolding visit relocate store
  visit-IsOther next q r e true c d w there go h = go w h
  visit-IsOther next q r e false (suc c) d w there go h =
      go (store r (record e { circle = c }) w)
        (store-IsOther r q e (record e { circle = c }) w.heap there (λ o. o) h)
  visit-IsOther next q r e false zero (suc d) w there go h =
      go (relocate dec r e w) (store-IsOther r q e (record e { diff = 0 }) w.heap there (λ o. o) h)
  visit-IsOther next q r e false zero zero w there go h =
      go (record w { timers = delete dec e.key w.timers }) h

  pub scan-IsOther :
      (q : ℕ) (l : List ℕ) (w : Wheel K V)
      → IsOther k (w.heap q)
      → IsOther k ((scan dec l w).0.heap q)
  scan-IsOther q [] w h = unfold scan in h
  scan-IsOther q (r ∷ l) w h = elim (Option-cases (w.heap r)) [
    | inl gone ↦ rw (scan-none dec r l w gone) (scan-IsOther q l w h)
    | inr (e, there) ↦ rw (scan-visit dec r l w e there) (
        visit-IsOther (scan dec l) q r e e.removed e.circle e.diff w there
          (λ w'. scan-IsOther q l w') h)
  ]
