-- ===== src/Syncx/SingleFlight/Shared.antt =====
-- core/syncx/singleflight.go: what the goroutines that joined a call read.
use mathlib.Core.Path.{ap₂, subst}
use fastgozero.Prelude.{
  ℕ, ◌<◌, ◌≡◌, ◌≢◌, refl, sym, ap, ◌∙◌, Bool, true, false, List, [], ◌∷◌, ◌++◌, ◌⊎◌, inl, inr,
  Option, some, arith, ◌==◌, if◌then◌else◌, ℕ_discrete,
}
use fastgozero.Prelude.Maps.{lookup}
use fastgozero.Syncx.SingleFlight.{
  Phase, running, returning, deleted, done, live, Joiner, FlightGroup, new_single_flight,
  create_call, join_call, return_call, finish_call, wake_joiners, read_values, Step, create_step,
  join_step, return_step, finish_step, done_step, read_step, Steps, no_step, then_step, IsValid,
  reached-IsValid,
}

-- The function of the call has returned.
unfoldable over : Phase → Bool
over running = false
over returning = true
over deleted = true
over done = true

abbrev pub Among : {A : Type 0} → A → List A → Type 0
Among x [] = ⊥
Among x (y ∷ l) = (x ≡ y) ⊎ Among x l

Among-wider :
    {A : Type 0} (x y : A) (before after : List A)
    → Among x (before ++ after)
    → Among x (before ++ y ∷ after)
Among-wider x y [] after h = inr h
Among-wider x y (z ∷ before) after (inl e) = inl e
Among-wider x y (z ∷ before) after (inr h) = inr (Among-wider x y before after h)

Among-middle : {A : Type 0} (x : A) (before after : List A) → Among x (before ++ x ∷ after)
Among-middle x [] after = inl refl
Among-middle x (z ∷ before) after = inr (Among-middle x before after)

module _ {K R : Type 0} (dec : Discrete K) where
  -- What a goroutine that joined call `c` read is what the function of the call returned, and is what
  -- its values are.
  pub record IsShared (g : FlightGroup K R) (j : Joiner K) (r : Option R) : Type 0 where
    pub same_key : g.key_of j.joined ≡ some j.key
    pub is_done : g.phase j.joined ≡ done
    pub from_function : Among (j.joined, r) g.returned
    pub same_values : g.values j.joined ≡ r

  record Keeps (g : FlightGroup K R) : Type 0 where
    logged : (c : ℕ) → c < g.next_call → over (g.phase c) ≡ true → Among (c, g.values c) g.returned
    waits :
        (j : Joiner K)
        → Among j g.waiting
        → (j.joined < g.next_call) × (g.key_of j.joined ≡ some j.key)
    reads :
        (j : Joiner K) (r : Option R)
        → Among (j, r) g.results
        → (j.joined < g.next_call) × IsShared g j r

  owned-lt :
      (g : FlightGroup K R) (c : ℕ) → IsValid dec g → live (g.phase c) ≡ true → c < g.next_call
  unfolding live
  owned-lt g c v l = ground (arith, v.fresh c, l)

  create_call-Keeps : (k : K) (g : FlightGroup K R) → Keeps g → Keeps (create_call dec k g)
  unfolding create_call over
  create_call-Keeps k g s = record {
    logged = λ c lt o. s.logged c (ground (arith, lt, o)) (ground (arith, lt, o));
    waits = λ j h. let (lt, key) = s.waits j h in (omega arith, ground (arith, lt, key));
    reads = λ j r h.
        let (lt, shared) = s.reads j r h in
        (
          omega arith,
          record {
            same_key = ground (arith, lt, shared.same_key);
            is_done = ground (arith, lt, shared.is_done);
            from_function = shared.from_function;
            same_values = shared.same_values;
          },
        );
  }

  join_call-Keeps :
      (k : K) (c : ℕ) (g : FlightGroup K R)
      → lookup dec k g.calls ≡ some c
      → IsValid dec g
      → Keeps g
      → Keeps (join_call dec k c g)
  unfolding join_call
  join_call-Keeps k c g there v s = record {
    logged = s.logged;
    waits = joins;
    reads = λ j r h.
        let (lt, shared) = s.reads j r h in
        (
          lt,
          record {
            same_key = shared.same_key;
            is_done = shared.is_done;
            from_function = shared.from_function;
            same_values = shared.same_values;
          },
        );
  }
    where
      joins :
          (j : Joiner K)
          → Among j (record { key = k; joined = c } ∷ g.waiting)
          → (j.joined < g.next_call) × (g.key_of j.joined ≡ some j.key)
      joins j (inl e) = let (key, l) = v.owned c k there in rw e (owned-lt g c v l, key)
      joins j (inr h) = s.waits j h

  return_call-Keeps :
      (c : ℕ) (r : Option R) (g : FlightGroup K R)
      → g.phase c ≡ running
      → Keeps g
      → Keeps (return_call dec c r g)
  unfolding return_call over
  return_call-Keeps c r g at s = record {
    logged = λ d lt o. elim (ℕ_discrete c d) [
      | yes e ↦
          let val : (return_call dec c r g).values d ≡ r =
            unfold return_call in ground (arith, e) in
          inl (ap₂ (λ x y. (x, y)) (sym e) val)
      | no ne ↦
          let val : (return_call dec c r g).values d ≡ g.values d =
            unfold return_call in ground (arith, ne) in
          inr
            (subst (λ x. Among (d, x) g.returned) (sym val) (s.logged d lt (ground (arith, o, ne))))
    ];
    waits = s.waits;
    reads = λ j q h.
        let (lt, shared) = s.reads j q h in
        let ne : c ≢ j.joined = λ e. ground (arith, at, shared.is_done, e) in
        (
          lt,
          record {
            same_key = shared.same_key;
            is_done = ground (arith, shared.is_done, ne);
            from_function = inr shared.from_function;
            same_values = ground (arith, shared.same_values, ne);
          },
        );
  }

  -- A step that changes the phase of a call whose function has returned.
  phase-Keeps :
      (c : ℕ) (q : Phase) (g : FlightGroup K R) (calls' : List (K × ℕ))
      → over (g.phase c) ≡ true
      → g.phase c ≢ done
      → Keeps g
      → Keeps (record g { calls = calls'; phase = λ d. if c == d then q else g.phase d })
  unfolding over
  phase-Keeps c q g calls' at not_done s = record {
    logged = λ d lt o. s.logged d lt (ground (arith, at, o));
    waits = s.waits;
    reads = λ j r h.
        let (lt, shared) = s.reads j r h in
        let ne : c ≢ j.joined = λ e. not_done (ap g.phase e ∙ shared.is_done) in
        (
          lt,
          record {
            same_key = shared.same_key;
            is_done = ground (arith, shared.is_done, ne);
            from_function = shared.from_function;
            same_values = shared.same_values;
          },
        );
  }

  read_values-Keeps :
      (before after : List (Joiner K)) (j : Joiner K) (g : FlightGroup K R)
      → g.waiting ≡ before ++ j ∷ after
      → g.phase j.joined ≡ done
      → Keeps g
      → Keeps (read_values dec before j after g)
  unfolding read_values over
  read_values-Keeps before after j g w at s = record {
    logged = s.logged;
    waits = λ i h. s.waits i (subst (Among i) (sym w) (Among-wider i j before after h));
    reads = reads_now;
  }
    where
      mine : (j.joined < g.next_call) × (g.key_of j.joined ≡ some j.key)
      mine = s.waits j (subst (Among j) (sym w) (Among-middle j before after))

      kept :
          (i : Joiner K) (r : Option R)
          → IsShared g i r
          → IsShared (read_values dec before j after g) i r
      kept i r shared = record {
        same_key = shared.same_key;
        is_done = shared.is_done;
        from_function = shared.from_function;
        same_values = shared.same_values;
      }

      reads_now :
          (i : Joiner K) (r : Option R)
          → Among (i, r) ((j, g.values j.joined) ∷ g.results)
          → (i.joined < g.next_call) × IsShared (read_values dec before j after g) i r
      reads_now i r (inl e) =
          subst
            (λ x. (x.0.joined < g.next_call) × IsShared (read_values dec before j after g) x.0 x.1)
            (sym e)
            (
              mine.0,
              kept j (g.values j.joined) (record {
                same_key = mine.1;
                is_done = at;
                from_function = s.logged j.joined mine.0 (rw at refl);
                same_values = refl;
              }),
            )
      reads_now i r (inr h) = let (lt, shared) = s.reads i r h in (lt, kept i r shared)

  Step-Keeps : {g g' : FlightGroup K R} → Step dec g g' → IsValid dec g → Keeps g → Keeps g'
  unfolding finish_call wake_joiners over
  Step-Keeps {g} (create_step k new) v s = create_call-Keeps k g s
  Step-Keeps {g} (join_step k c there) v s = join_call-Keeps k c g there v s
  Step-Keeps {g} (return_step c r at) v s = return_call-Keeps c r g at s
  Step-Keeps {g} (finish_step c k at key) v s = phase-Keeps c deleted g _ (rw at refl) (λ e. cc) s
  Step-Keeps {g} (done_step c at) v s = phase-Keeps c done g _ (rw at refl) (λ e. cc) s
  Step-Keeps {g} (read_step before after j w at) v s = read_values-Keeps before after j g w at s

  reached-Keeps : {g : FlightGroup K R} → Steps dec new_single_flight g → Keeps g
  unfolding over
  reached-Keeps no_step = record {
    logged = λ c lt o. absurd (omega arith);
    waits = λ j h. absurd h;
    reads = λ j r h. absurd h;
  }
  reached-Keeps (then_step path step) =
      Step-Keeps step (reached-IsValid dec path) (reached-Keeps path)

  -- However goroutines interleave in a SingleFlight: what a goroutine that found a call in the map
  -- reads after c.wg.Wait is what the function of that call returned, for the goroutine's own key, and
  -- stays the values of the call.
  pub values_kept :
      {g : FlightGroup K R} (j : Joiner K) (r : Option R)
      → Steps dec new_single_flight g
      → Among (j, r) g.results
      → IsShared g j r
  values_kept j r path h = ((reached-Keeps path).reads j r h).1
