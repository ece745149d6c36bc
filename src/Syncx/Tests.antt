-- ===== src/Syncx/Tests.antt =====
-- Runs of core/syncx.
use fastgozero.Prelude.{ℕ, ◌+◌, ◌≤◌, ◌≡◌, refl, false, List, [], ◌∷◌, arith, ltb, if◌then◌else◌}
use fastgozero.Syncx.AtomicLimit.{
  AtomicLimit, new_atomic_limit, try_borrow, Steps, borrow_step, no_step, then_step, Steps-bound,
  try_borrow-Steps,
}
use fastgozero.Syncx.RefResource.{
  Call, use_call, clean_call, calls, clean, use_resource, no_call, one_more, one_less,
  open_resource, cleaned_resource, new_ref_resource, clean_once,
}
use fastgozero.Syncx.SingleFlight.{
  Joiner, FlightGroup, new_single_flight, create_call, join_call, return_call, finish_call,
  wake_joiners, read_values, create_step, join_step, return_step, finish_step, done_step, read_step,
  live, one_call,
}
use fastgozero.Syncx.SingleFlight.Shared.{IsShared, values_kept}
use fastgozero.Syncx.SingleFlight as SingleFlight
use fastgozero.Prelude.{ℕ_discrete, inl, some, true, ◌↔◌}
use fastgozero.Prelude.Maps.{lookup, insert}
use fastgozero.Syncx.Pool.{Pool, reused, made, get_item, IsValid, Gives, get_item-Gives, get_loop}

-- Two goroutines try to borrow from a limit of one: the second is between its two operations.
abbrev two_tried : AtomicLimit
two_tried = record { n = 1; m = 2; holders = 1; excess = 1 }

try_borrow-twice : try_borrow (try_borrow (new_atomic_limit 1)) ≡ two_tried
unfolding try_borrow new_atomic_limit
try_borrow-twice = refl

tried : Steps 2 (new_atomic_limit 1) (try_borrow (try_borrow (new_atomic_limit 1)))
unfolding new_atomic_limit try_borrow
tried = then_step (then_step no_step (borrow_step (omega arith))) (borrow_step (omega arith))

Steps-bound_example :
    let l = try_borrow (try_borrow (new_atomic_limit 1)) in
    (l.holders ≤ 1) × (l.m ≡ l.holders + l.excess)
Steps-bound_example =
    Steps-bound 2 1 (omega arith) {l = try_borrow (try_borrow (new_atomic_limit 1))} (omega arith)
      tried

try_borrow-Steps_example :
    let l = try_borrow (new_atomic_limit 2) in
    (try_borrow l).holders ≡ (if ltb l.holders 2 then l.holders + 1 else l.holders)
unfolding new_atomic_limit try_borrow
try_borrow-Steps_example =
    try_borrow-Steps 3 2 (omega arith) {l = try_borrow (new_atomic_limit 2)} (omega arith)
      (then_step no_step (borrow_step (omega arith))) refl (omega arith)

abbrev shared : List Call
shared = use_call ∷ use_call ∷ clean_call ∷ []

clean_once_example :
    (calls shared new_ref_resource ≡ open_resource 1)
    × (calls shared (clean (calls shared new_ref_resource)) ≡ cleaned_resource)
    × ((use_resource (calls shared (clean (calls shared new_ref_resource)))).1 ≡ false)
clean_once_example =
    clean_once shared shared (one_more (omega arith) (one_more (omega arith) (one_less no_call)))

-- A Clean without a Use makes the count -1, and the next Use makes it 0 without a clean.
clean-new : calls (clean_call ∷ use_call ∷ []) new_ref_resource ≡ new_ref_resource
unfolding calls clean use_resource
clean-new = refl

-- One item in use, one in the pool for five units, of an age of ten.
abbrev aged : Pool ℕ
aged = record {
  limit = 2;
  created = 2;
  max_age = 10;
  nodes = record { item = 8; last_used = 5 } ∷ [];
  destroyed = [];
}

aged-IsValid : IsValid 1 aged
aged-IsValid = record { some_limit = omega arith; counted = refl; limited = omega arith }

get_item-aged :
    ((get_item 10 aged).1 ≡ reused 8)
    × ((get_item 16 aged).1 ≡ made)
    × ((get_item 16 aged).0.destroyed ≡ 8 ∷ [])
unfolding get_item get_loop
get_item-aged = (refl, refl, refl)

get_item-Gives_example : Gives 16 1 aged aged.nodes (get_item 16 aged).0 (get_item 16 aged).1
get_item-Gives_example = get_item-Gives 16 1 aged aged-IsValid

-- Key 7 is called, a second goroutine joins the call, and reads its values when it is done.
abbrev flying : FlightGroup ℕ ℕ
flying = create_call ℕ_discrete 7 new_single_flight

abbrev with_joiner : FlightGroup ℕ ℕ
with_joiner = join_call ℕ_discrete 7 0 flying

abbrev with_return : FlightGroup ℕ ℕ
with_return = return_call ℕ_discrete 0 (some 5) with_joiner

abbrev with_finish : FlightGroup ℕ ℕ
with_finish = finish_call ℕ_discrete 0 7 with_return

abbrev with_done : FlightGroup ℕ ℕ
with_done = wake_joiners ℕ_discrete 0 with_finish

abbrev second : Joiner ℕ
second = record { key = 7; joined = 0 }

abbrev with_read : FlightGroup ℕ ℕ
with_read = read_values ℕ_discrete [] second [] with_done

with_joiner-Steps : SingleFlight.Steps ℕ_discrete new_single_flight with_joiner
unfolding create_call lookup insert ℕ_discrete
with_joiner-Steps =
    SingleFlight.Steps.then_step
      (SingleFlight.Steps.then_step SingleFlight.Steps.no_step (create_step 7 refl))
      (join_step 7 0 refl)

with_read-Steps : SingleFlight.Steps ℕ_discrete new_single_flight with_read
unfolding create_call join_call return_call finish_call wake_joiners
with_read-Steps =
    SingleFlight.Steps.then_step
      (SingleFlight.Steps.then_step
        (SingleFlight.Steps.then_step
          (SingleFlight.Steps.then_step with_joiner-Steps (return_step 0 (some 5) refl))
          (finish_step 0 7 refl refl))
        (done_step 0 refl))
      (read_step [] [] second refl refl)

with_read_results : with_read.results ≡ (second, some 5) ∷ []
unfolding create_call join_call return_call finish_call wake_joiners read_values
with_read_results = refl

one_call_example :
    (lookup ℕ_discrete 7 with_joiner.calls ≡ some 0)
    ↔ ((with_joiner.key_of 0 ≡ some 7) × (live (with_joiner.phase 0) ≡ true))
one_call_example = one_call ℕ_discrete {g = with_joiner} 0 7 with_joiner-Steps

values_kept_example : IsShared ℕ_discrete with_read second (some 5)
values_kept_example =
    values_kept ℕ_discrete {g = with_read} second (some 5) with_read-Steps
      (rw with_read_results (inl refl))
