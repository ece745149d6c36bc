-- ===== src/Collection/Fifo/Inv.antt =====
-- The representation invariant of Queue (core/collection/fifo.go) and the elements it stands for.
use fastgozero.Prelude.{ℕ, ◌+◌, ◌%◌, ◌≤◌, ◌<◌, ◌≡◌, List, [], refl, arith, length, length-replicate}
use fastgozero.Prelude.Cyclic.{cycle}
use fastgozero.Collection.Fifo.{Queue, new_queue}

pub record IsValid {ℓ} {A : Type ℓ} (q : Queue A) : Type ℓ where
  pub some_size : 0 < q.size
  pub head_in : q.head < length q.elements
  pub count_in : q.count ≤ length q.elements
  pub tail_at : q.tail ≡ (q.head + q.count) % length q.elements

module _ {ℓ} {A : Type ℓ} (nil : A) where
  -- The elements in the queue, first in first.
  unfoldable pub contents : Queue A → List A
  contents q = cycle nil q.elements (length q.elements) q.head 0 q.count

  -- NewQueue with a positive size is valid and empty.
  pub new_queue-IsValid :
      (size : ℕ) → 0 < size → IsValid (new_queue nil size) × (contents (new_queue nil size) ≡ [])
  unfolding new_queue contents cycle
  new_queue-IsValid size h = (
    record {
      some_size = h;
      head_in = omega (arith, length-replicate size nil);
      count_in = omega arith;
      tail_at = grind (arith, length-replicate size nil);
    },
    refl,
  )
