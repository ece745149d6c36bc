-- ===== src/Threading/Tests.antt =====
-- core/threading/stablerunner.go: a message on its way through a runner of two holders, and the
-- theorems at it.
use fastgozero.Prelude.{
  ℕ, ◌+◌, ◌≤◌, ◌≡◌, refl, ◌⊎◌, true, [], ◌∷◌, none, some, length, take, map, arith,
}
use fastgozero.Threading.{
  set_at, StableRunner, new_stable_runner, lock, handled, get, moves, push, Reaches, at_start,
  then_acts,
}
use fastgozero.Threading.Run.{TakesAll, Reaches-taken, Reaches-TakesAll}

abbrev double : ℕ → ℕ
double x = x + x

abbrev with_pushed : StableRunner ℕ ℕ
with_pushed = record (new_stable_runner 2) { written_index = 1; pushing = some 7; pushed = 7 ∷ [] }

abbrev with_locked : StableRunner ℕ ℕ
with_locked = record with_pushed {
  pushing = none;
  working = set_at with_pushed.working 0 (some (0, 7));
}

abbrev with_value : StableRunner ℕ ℕ
with_value = record with_locked {
  working = set_at with_locked.working 0 none;
  values = set_at with_locked.values 0 (some (0, 14));
}

abbrev with_taken : StableRunner ℕ ℕ
with_taken = record with_value {
  values = set_at with_value.values 0 none;
  consumed_index = 1;
  taken = 14 ∷ [];
}

with_pushed-Reaches : Reaches double (new_stable_runner 2) with_pushed
with_pushed-Reaches = then_acts at_start (push 7 refl refl)

with_taken-Reaches : Reaches double (new_stable_runner 2) with_taken
with_taken-Reaches =
    then_acts {b = with_value}
      (then_acts {b = with_locked}
        (then_acts {b = with_pushed} with_pushed-Reaches (moves (lock 7 refl refl)))
        (moves (handled 0 0 7 refl refl)))
      (moves (get 0 14 refl))

Reaches-taken_example :
    (with_taken.taken ≡ map double (take 1 (7 ∷ [])))
    × ((1 ≤ length with_taken.pushed) ⊎ (with_taken.is_done ≡ true))
Reaches-taken_example = Reaches-taken double 2 (omega arith) with_taken with_taken-Reaches

Reaches-TakesAll_example : TakesAll double with_pushed
Reaches-TakesAll_example = Reaches-TakesAll double 2 (omega arith) with_pushed with_pushed-Reaches
