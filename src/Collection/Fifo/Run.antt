-- ===== src/Collection/Fifo/Run.antt =====
-- Sequences of calls of Queue (core/collection/fifo.go) against a list.
use mathlib.Core.Option
use fastgozero.Prelude.{ℕ, ◌<◌, ◌≡◌, refl, ap, ◌∙◌, List, [], ◌∷◌, ◌++◌, Option, none, some}
use fastgozero.Collection.Fifo.{Queue, take_first, new_queue, put}
use fastgozero.Collection.Fifo.Inv.{IsValid, contents, new_queue-IsValid}
use fastgozero.Collection.Fifo.Refine.{put_lem}
use fastgozero.Collection.Fifo.Taken.{taken, take_first-taken, taken_lem, TakesFirst}

-- A client's call.
pub data Op {ℓ} (A : Type ℓ) : Type ℓ where
  put_op : A → Op A
  take_op : Op A

-- What the takes of a sequence of calls return on a first-in-first-out list.
unfoldable pub run_list {ℓ} : {A : Type ℓ} → List A → List (Op A) → List (Option A)
run_list l [] = []
run_list l (put_op v ∷ ops) = run_list (l ++ (v ∷ [])) ops
run_list [] (take_op ∷ ops) = none ∷ run_list [] ops
run_list (x ∷ l) (take_op ∷ ops) = some x ∷ run_list l ops

module _ {ℓ} {A : Type ℓ} (nil : A) where
  -- What they return on the queue; `none` is a panic.
  unfoldable pub run : Queue A → List (Op A) → Option (List (Option A))
  run q [] = some []
  run q (put_op v ∷ ops) = elim (put nil v q) [ none ↦ none | some q' ↦ run q' ops ]
  run q (take_op ∷ ops) = elim (take_first q) [
    | none ↦ none
    | some (r, q') ↦ Option.map (λ (rs : List (Option A)). r ∷ rs) (run q' ops)
  ]

  run-contents :
      (q : Queue A) (ops : List (Op A))
      → IsValid q
      → run q ops ≡ some (run_list (contents nil q) ops)
  unfolding run run_list
  run-contents q [] h = refl
  run-contents q (put_op v ∷ ops) h =
      let (q', e, valid, c) = put_lem nil v q h in
      rw (e, run) (run-contents q' ops valid ∙ ap (λ l. some (run_list l ops)) c)
  run-contents q (take_op ∷ ops) h =
      rw (take_first-taken nil q h, run)
        (go (contents nil q) (taken_lem nil q h).1
          (run-contents (taken nil q).1 ops (taken_lem nil q h).0))
    where
      go :
          (l : List A)
          → TakesFirst nil l (taken nil q)
          → run (taken nil q).1 ops ≡ some (run_list (contents nil (taken nil q).1) ops)
          → Option.map (λ (rs : List (Option A)). (taken nil q).0 ∷ rs) (run (taken nil q).1 ops)
            ≡ some (run_list l (take_op ∷ ops))
      go [] t e = rw (e, t.0, t.1)
      go (x ∷ l) t e = rw (e, t.0, t.1)

  -- A new queue of positive size answers any sequence of calls as a first-in-first-out list does,
  -- and never panics, however often it grows.
  pub run_refines :
      (size : ℕ) (ops : List (Op A))
      → 0 < size
      → run (new_queue nil size) ops ≡ some (run_list [] ops)
  run_refines size ops h =
      let n = new_queue-IsValid nil size h in
      run-contents (new_queue nil size) ops n.0 ∙ ap (λ l. some (run_list l ops)) n.1
