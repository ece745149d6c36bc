-- ===== src/Syncx/SingleFlight.antt =====
-- core/syncx/singleflight.go: SingleFlight. A step is what a goroutine does under the lock, the return
-- of its function, or its wake-up from c.wg.Wait; goroutines interleave between steps. A call is
-- named by a reference, and its creator is the goroutine that runs its function. A panic of the
-- function leaves the values unset.
pub mod Shared
use fastgozero.Prelude.{
  ℕ, ◌+◌, ◌≤◌, ◌<◌, ◌≡◌, ◌↔◌, refl, sym, ap, ◌∙◌, Bool, true, false, List, [], ◌∷◌, ◌++◌, ◌⊎◌, inl,
  inr, Option, none, some, arith, ◌==◌, if◌then◌else◌,
}
use fastgozero.Prelude.Maps.{lookup, insert, delete, lookup-insert, lookup-delete}

-- Where the creator of a call is: its function runs, or has returned, or the call is out of the map,
-- or wg.Done was called.
pub data Phase : Type 0 where
  running returning deleted done : Phase

unfoldable pub live : Phase → Bool
live running = true
live returning = true
live deleted = false
live done = false

-- A goroutine that found a call in the map: its key, and the call.
pub record Joiner (K : Type 0) : Type 0 where
  pub key : K
  pub joined : ℕ

-- flightGroup, with its calls: the key and the phase of the creator, and the values, unset for none.
-- `waiting` are the goroutines in c.wg.Wait, `results` what those that went on read, newest first,
-- and `returned` what functions returned, with their calls.
pub record FlightGroup (K R : Type 0) : Type 0 where
  pub calls : List (K × ℕ)
  pub next_call : ℕ
  pub key_of : ℕ → Option K
  pub phase : ℕ → Phase
  pub values : ℕ → Option R
  pub waiting : List (Joiner K)
  pub results : List (Joiner K × Option R)
  pub returned : List (ℕ × Option R)

-- NewSingleFlight
abbrev pub new_single_flight : {K R : Type 0} → FlightGroup K R
new_single_flight = record {
  calls = [];
  next_call = 0;
  key_of = λ c. none;
  phase = λ c. done;
  values = λ c. none;
  waiting = [];
  results = [];
  returned = [];
}

module _ {K R : Type 0} (dec : Discrete K) where
  -- createCall for a key that is not in the map.
  unfoldable pub create_call : K → FlightGroup K R → FlightGroup K R
  create_call k g = record g {
    calls = insert dec k g.next_call g.calls;
    next_call = g.next_call + 1;
    key_of = λ c. if g.next_call == c then some k else g.key_of c;
    phase = λ c. if g.next_call == c then running else g.phase c;
  }

  -- createCall for a key that is in the map, up to c.wg.Wait.
  unfoldable pub join_call : K → ℕ → FlightGroup K R → FlightGroup K R
  join_call k c g = record g { waiting = record { key = k; joined = c } ∷ g.waiting }

  -- makeCall, when its function returns, with values or by a panic.
  unfoldable pub return_call : ℕ → Option R → FlightGroup K R → FlightGroup K R
  return_call c r g = record g {
    phase = λ d. if c == d then returning else g.phase d;
    values = λ d. if c == d then r else g.values d;
    returned = (c, r) ∷ g.returned;
  }

  -- The deferred end of makeCall, under the lock.
  unfoldable pub finish_call : ℕ → K → FlightGroup K R → FlightGroup K R
  finish_call c k g = record g {
    calls = delete dec k g.calls;
    phase = λ d. if c == d then deleted else g.phase d;
  }

  -- c.wg.Done
  unfoldable pub wake_joiners : ℕ → FlightGroup K R → FlightGroup K R
  wake_joiners c g = record g { phase = λ d. if c == d then done else g.phase d }

  -- A goroutine goes on after c.wg.Wait and reads the values.
  unfoldable pub read_values :
      List (Joiner K) → Joiner K → List (Joiner K) → FlightGroup K R → FlightGroup K R
  read_values before j after g = record g {
    waiting = before ++ after;
    results = (j, g.values j.joined) ∷ g.results;
  }

  pub data Step (g : FlightGroup K R) : FlightGroup K R → Type 0 where
    create_step : (k : K) → lookup dec k g.calls ≡ none → Step g (create_call k g)
    join_step : (k : K) (c : ℕ) → lookup dec k g.calls ≡ some c → Step g (join_call k c g)
    return_step : (c : ℕ) (r : Option R) → g.phase c ≡ running → Step g (return_call c r g)
    finish_step :
        (c : ℕ) (k : K) → g.phase c ≡ returning → g.key_of c ≡ some k → Step g (finish_call c k g)
    done_step : (c : ℕ) → g.phase c ≡ deleted → Step g (wake_joiners c g)
    read_step :
        (before after : List (Joiner K)) (j : Joiner K)
        → g.waiting ≡ before ++ j ∷ after
        → g.phase j.joined ≡ done
        → Step g (read_values before j after g)

  pub data Steps : FlightGroup K R → FlightGroup K R → Type 0 where
    no_step : {g : FlightGroup K R} → Steps g g
    then_step : {g g' g'' : FlightGroup K R} → Steps g g' → Step g' g'' → Steps g g''

  -- The map holds exactly the calls that are not done, by their keys.
  pub record IsValid (g : FlightGroup K R) : Type 0 where
    pub covers :
        (c : ℕ) (k : K)
        → live (g.phase c) ≡ true
        → g.key_of c ≡ some k
        → lookup dec k g.calls ≡ some c
    pub owned :
        (c : ℕ) (k : K)
        → lookup dec k g.calls ≡ some c
        → (g.key_of c ≡ some k) × (live (g.phase c) ≡ true)
    pub fresh : (c : ℕ) → g.next_call ≤ c → g.phase c ≡ done

  create_call-IsValid :
      (k : K) (g : FlightGroup K R)
      → lookup dec k g.calls ≡ none
      → IsValid g
      → IsValid (create_call k g)
  unfolding create_call live
  create_call-IsValid k g new v = record {
    covers = λ c j l e.
        ground (arith, v.covers c j, lookup-insert dec k j g.next_call g.calls, new, l, e);
    owned = λ c j e.
        ground (arith, v.owned c j, lookup-insert dec k j g.next_call g.calls, new, e, v.fresh c);
    fresh = λ c h. ground (arith, v.fresh c, h);
  }

  return_call-IsValid :
      (c : ℕ) (r : Option R) (g : FlightGroup K R)
      → g.phase c ≡ running
      → IsValid g
      → IsValid (return_call c r g)
  unfolding return_call live
  return_call-IsValid c r g at v = record {
    covers = λ d j l e. ground (arith, v.covers d j, at, l, e);
    owned = λ d j e. ground (arith, v.owned d j e, at);
    fresh = λ d h. ground (arith, v.fresh d h, at);
  }

  finish_call-IsValid :
      (c : ℕ) (k : K) (g : FlightGroup K R)
      → g.phase c ≡ returning
      → g.key_of c ≡ some k
      → IsValid g
      → IsValid (finish_call c k g)
  unfolding finish_call live
  finish_call-IsValid c k g at key v =
      let here : lookup dec k g.calls ≡ some c =
        v.covers c k (unfold live in ground (arith, at)) key in
      record {
        covers = λ d j l e. ground (arith, v.covers d j, lookup-delete dec k j g.calls, here, l, e);
        owned = λ d j e. ground (arith, v.owned d j, lookup-delete dec k j g.calls, here, key, e);
        fresh = λ d h. ground (arith, v.fresh d h);
      }

  wake_joiners-IsValid :
      (c : ℕ) (g : FlightGroup K R) → g.phase c ≡ deleted → IsValid g → IsValid (wake_joiners c g)
  unfolding wake_joiners live
  wake_joiners-IsValid c g at v = record {
    covers = λ d j l e. ground (arith, v.covers d j, at, l, e);
    owned = λ d j e. ground (arith, v.owned d j e, at);
    fresh = λ d h. ground (arith, v.fresh d h);
  }

  Step-IsValid : {g g' : FlightGroup K R} → Step g g' → IsValid g → IsValid g'
  Step-IsValid {g} (create_step k new) v = create_call-IsValid k g new v
  Step-IsValid {g} (join_step k c there) v =
      unfold join_call in record { covers = v.covers; owned = v.owned; fresh = v.fresh }
  Step-IsValid {g} (return_step c r at) v = return_call-IsValid c r g at v
  Step-IsValid {g} (finish_step c k at key) v = finish_call-IsValid c k g at key v
  Step-IsValid {g} (done_step c at) v = wake_joiners-IsValid c g at v
  Step-IsValid {g} (read_step before after j w at) v =
      unfold read_values in record { covers = v.covers; owned = v.owned; fresh = v.fresh }

  pub reached-IsValid : {g : FlightGroup K R} → Steps new_single_flight g → IsValid g
  unfolding lookup live
  reached-IsValid no_step = record {
    covers = λ c k l e. absurd cc;
    owned = λ c k e. absurd cc;
    fresh = λ c h. refl;
  }
  reached-IsValid (then_step path step) = Step-IsValid step (reached-IsValid path)

  -- However goroutines interleave in a SingleFlight: a goroutine finds a call in the map under a key,
  -- and joins it, exactly if the call is for that key and its function runs or has just returned. So
  -- the function of a key never runs twice at a time, and no goroutine joins a call that is over.
  pub one_call :
      {g : FlightGroup K R} (c : ℕ) (k : K)
      → Steps new_single_flight g
      → (lookup dec k g.calls ≡ some c) ↔ ((g.key_of c ≡ some k) × (live (g.phase c) ≡ true))
  one_call {g} c k path =
      let v = reached-IsValid path in (v.owned c k, λ (key, l). v.covers c k l key)
