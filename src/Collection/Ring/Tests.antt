-- ===== src/Collection/Ring/Tests.antt =====
-- Runs of core/collection/ring.go.
use mathlib.Core.List.{foldl}
use fastgozero.Prelude.{ℕ, ◌≡◌, refl, List, [], ◌∷◌, none}
use fastgozero.Prelude.Cyclic.{cycle}
use fastgozero.Collection.Ring.{Ring, new_ring, add, take_all}
use fastgozero.Collection.Ring.Last.{last_n}
use fastgozero.Collection.Ring.Recent.{take_all_recent}

abbrev empty : Ring ℕ
empty = record { elements = 0 ∷ 0 ∷ 0 ∷ []; index = 0 }

abbrev after : List ℕ → Ring ℕ
after = foldl (λ q v. add v q) empty

abbrev more : List ℕ
more = 1 ∷ 2 ∷ 3 ∷ 4 ∷ 5 ∷ 6 ∷ 7 ∷ 8 ∷ []

new_ring_zero : new_ring {A = ℕ} 0 0 ≡ none
unfolding new_ring
new_ring_zero = refl

take_all_some : take_all 0 (after (1 ∷ 2 ∷ [])) ≡ 1 ∷ 2 ∷ []
unfolding take_all add cycle
take_all_some = refl

take_all_many : take_all 0 (after more) ≡ 6 ∷ 7 ∷ 8 ∷ []
unfolding take_all add cycle
take_all_many = refl

take_all_recent_example : take_all 0 (after more) ≡ last_n 3 more
unfolding new_ring
take_all_recent_example = take_all_recent 0 3 more {r = empty} refl
