-- ===== src/Collection/Fifo/Tests.antt =====
-- Runs of core/collection/fifo.go.
use fastgozero.Prelude.{ℕ, ◌≡◌, refl, List, [], ◌∷◌, none, some, arith, copy_at}
use fastgozero.Collection.Fifo.{Queue, take_first, new_queue, put}
use fastgozero.Collection.Fifo.Inv.{IsValid}
use fastgozero.Collection.Fifo.Run.{Op, put_op, take_op, run_list, run, run_refines}

-- Full, and wrapped round the end.
abbrev wrapped : Queue ℕ
wrapped = record { elements = 3 ∷ 2 ∷ []; size = 2; head = 1; tail = 1; count = 2 }

abbrev calls : List (Op ℕ)
calls =
    put_op 1 ∷ take_op ∷ put_op 2 ∷ put_op 3 ∷ put_op 4 ∷ take_op ∷ take_op ∷ take_op ∷ take_op ∷ []

wrapped-IsValid : IsValid wrapped
wrapped-IsValid = record {
  some_size = omega arith;
  head_in = omega arith;
  count_in = omega arith;
  tail_at = refl;
}

put-grows :
    put 0 4 wrapped
    ≡ some (record { elements = 2 ∷ 3 ∷ 4 ∷ 0 ∷ []; size = 2; head = 0; tail = 3; count = 3 })
unfolding put copy_at
put-grows = refl

run-calls : run 0 (new_queue 0 2) calls ≡ some (some 1 ∷ some 2 ∷ some 3 ∷ some 4 ∷ none ∷ [])
unfolding run put take_first new_queue copy_at
run-calls = refl

-- A queue made with size 0 has no room, and its first Put panics.
put-new_queue_zero : put {A = ℕ} 0 1 (new_queue 0 0) ≡ none
unfolding put new_queue
put-new_queue_zero = refl

run_refines_example : run 0 (new_queue 0 2) calls ≡ some (run_list [] calls)
run_refines_example = run_refines 0 2 calls (omega arith)
