-- ===== src/Collection/Fifo.antt =====
-- core/collection/fifo.go: Queue, a growing ring buffer.
-- `nil` is the value that a fresh slice holds. The lock makes each method one step.
pub mod Inv
pub mod Refine
pub mod Taken
pub mod Run
mod Tests
use fastgozero.Prelude.{
  ℕ, ◌+◌, ◌-◌, ◌%◌, List, [], ◌∷◌, Bool, ◌&&◌, Option, none, some, ltb, ◌==◌, if◌then◌else◌, length,
  get_elem?, set, replicate, take, drop, copy_at,
}

pub record Queue {ℓ} (A : Type ℓ) : Type ℓ where
  pub elements : List A
  pub size : ℕ
  pub head : ℕ
  pub tail : ℕ
  pub count : ℕ

-- Empty
pub is_empty {ℓ} : {A : Type ℓ} → Queue A → Bool
is_empty q = q.count == 0

-- Take: the element, or none if the queue is empty. A result that is none as a whole is the panic of
-- a read out of range.
pub take_first {ℓ} : {A : Type ℓ} → Queue A → Option (Option A × Queue A)
take_first q = if q.count == 0 then some (none, q) else elim (get_elem? q.elements q.head) [
  | none ↦ none
  | some element ↦
      some (some element, record q { head = (q.head + 1) % length q.elements; count = q.count - 1 })
]

module _ {ℓ} {A : Type ℓ} (nil : A) where
  -- NewQueue
  pub new_queue : ℕ → Queue A
  new_queue size = record {
    elements = replicate size nil;
    size = size;
    head = 0;
    tail = 0;
    count = 0;
  }

  -- The body of the `if` of Put: the elements move to the start of a longer slice.
  pub grow : Queue A → Queue A
  grow q =
      let len = length q.elements in
      let nodes = copy_at 0 (replicate (len + q.size) nil) (drop q.head q.elements) in
      record q {
        elements = copy_at (len - q.head) nodes (take q.head q.elements);
        head = 0;
        tail = len;
      }

  -- The rest of Put; `none` is the panic of a write out of range.
  pub put_last : A → Queue A → Option (Queue A)
  put_last element q =
      if ltb q.tail (length q.elements)
      then some (record q {
        elements = set q.elements q.tail element;
        tail = (q.tail + 1) % length q.elements;
        count = q.count + 1;
      })
      else none

  -- Put
  pub put : A → Queue A → Option (Queue A)
  unfolding grow put_last
  put element q = put_last element (if q.head == q.tail && ltb 0 q.count then grow q else q)
