-- ===== src/Collection/Ring.antt =====
-- core/collection/ring.go: a ring that keeps the last elements added to it.
-- `nil` is the value that a fresh slice holds. The lock makes each method one step.
pub mod Last
pub mod Recent
mod Tests
use fastgozero.Prelude.{
  ℕ, ◌+◌, ◌-◌, ◌*◌, ◌%◌, List, Option, none, some, ltb, leb, if◌then◌else◌, length, set, replicate,
}
use fastgozero.Prelude.Cyclic.{cycle}

pub record Ring {ℓ} (A : Type ℓ) : Type ℓ where
  pub elements : List A
  pub index : ℕ

module _ {ℓ} {A : Type ℓ} (nil : A) where
  -- NewRing; `none` is the panic.
  pub new_ring : ℕ → Option (Ring A)
  new_ring n = if ltb n 1 then none else some (record { elements = replicate n nil; index = 0 })

  -- Take: the loop reads `size` elements from `start` on, round the end.
  pub take_all : Ring A → List A
  take_all r =
      let rlen = length r.elements in
      if ltb rlen r.index
      then cycle nil r.elements rlen (r.index % rlen) 0 rlen
      else cycle nil r.elements rlen 0 0 r.index

-- Add
pub add {ℓ} : {A : Type ℓ} → A → Ring A → Ring A
add v r =
    let rlen = length r.elements in
    let next = r.index + 1 in
    record {
      elements = set r.elements (r.index % rlen) v;
      index = if leb (rlen * 2) next then next - rlen else next;
    }
