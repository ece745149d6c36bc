-- ===== src/Collection/Fifo/Refine.antt =====
-- Put of Queue (core/collection/fifo.go) on the list of its elements.
use mathlib.Core.Path.{ap₂}
use native.Mathlib.Nat.{mod-add-mod}
use fastgozero.Prelude.{
  ℕ, dec_lt, ◌+◌, ◌-◌, ◌%◌, ◌<◌, ◌≡◌, refl, ap, ◌∙◌, ◌&&◌, List, [], ◌∷◌, ◌++◌, some, true, false,
  inl, inr, arith, ltb, ◌==◌, lt→ltb, Bool-cases, length, get_or, set, replicate, take, drop,
  copy_at, length-set, length-replicate, length-copy_at, length-take, length-drop, get_or-drop,
  get_or-take, get_or-copy_at, get_or-copy_at_before,
}
use fastgozero.Prelude.Cyclic.{cycle, cycle_congr, cycle-set, mod_wrap, mod-lt'}
use fastgozero.Collection.Fifo.{Queue, grow, put_last, put}
use fastgozero.Collection.Fifo.Inv.{IsValid, contents}

module _ {ℓ} {A : Type ℓ} (nil : A) where
  -- The slice that grow builds, read at the place of the k-th element.
  get_or-grow :
      (q : Queue A) (k : ℕ)
      → q.head < length q.elements
      → k < length q.elements
      → get_or (grow nil q).elements k nil
        ≡ get_or q.elements ((q.head + k) % length q.elements) nil
  unfolding grow
  get_or-grow q k hh hk = elim (dec_lt k (len - q.head)) [
    | yes p ↦
        get_or-copy_at_before (len - q.head) nodes (take q.head q.elements) k nil p
        ∙ get_or-copy_at 0 fresh (drop q.head q.elements) k k nil
            (omega (arith, length-drop q.head q.elements))
            (omega (arith, length-replicate (len + q.size) nil)) (omega arith)
        ∙ get_or-drop q.head q.elements k nil
        ∙ ap (λ i. get_or q.elements i nil)
            (ground (arith, mod_wrap (q.head + k) len (omega arith)))
    | no p ↦
        get_or-copy_at (len - q.head) nodes (take q.head q.elements) (k - (len - q.head)) k nil
          (omega (arith, length-take q.head q.elements))
          (omega (arith, length-replicate (len + q.size) nil, nodes_length)) (omega arith)
        ∙ get_or-take q.head q.elements (k - (len - q.head)) nil (omega arith)
        ∙ ap (λ i. get_or q.elements i nil)
            (ground (arith, mod_wrap (q.head + k) len (omega arith)))
  ]
    where
      len : ℕ
      len = length q.elements

      fresh : List A
      fresh = replicate (len + q.size) nil

      nodes : List A
      nodes = copy_at 0 fresh (drop q.head q.elements)

      nodes_length : length nodes ≡ length fresh
      nodes_length = length-copy_at 0 fresh (drop q.head q.elements)

  length-grow : (q : Queue A) → length (grow nil q).elements ≡ length q.elements + q.size
  unfolding grow
  length-grow q =
      length-copy_at _ _ _ ∙ length-copy_at 0 _ (drop q.head q.elements) ∙ length-replicate _ nil

  grow_fields :
      (q : Queue A)
      → ((grow nil q).size ≡ q.size)
        × ((grow nil q).head ≡ 0)
        × ((grow nil q).tail ≡ length q.elements)
        × ((grow nil q).count ≡ q.count)
  unfolding grow
  grow_fields q = (refl, refl, refl, refl)

  -- Growing a full queue keeps its elements, and makes room.
  grow-IsValid :
      (q : Queue A)
      → IsValid q
      → q.count ≡ length q.elements
      → IsValid (grow nil q)
        × ((grow nil q).count < length (grow nil q).elements)
        × (contents nil (grow nil q) ≡ contents nil q)
  unfolding contents
  grow-IsValid q v full =
      let f = grow_fields q in
      let n : ℕ = length (grow nil q).elements in
      let e : n ≡ length q.elements + q.size = length-grow q in
      (
        record {
          some_size = omega (arith, v.some_size);
          head_in = omega (arith, v.some_size);
          count_in = omega (arith, v.some_size);
          tail_at =
              ground (
                arith,
                v.some_size,
                v.head_in,
                mod_wrap ((grow nil q).head + (grow nil q).count) n,
              );
        },
        omega (arith, v.some_size),
        ap₂ (λ h c. cycle nil (grow nil q).elements n h 0 c) f.1 f.3
            ∙ cycle_congr nil n (length q.elements) (grow nil q).elements q.elements 0 q.head 0
                q.count
                (λ k hk.
                  ap (λ i. get_or (grow nil q).elements i nil)
                    (ground (arith, e, v.some_size, mod_wrap (0 + (0 + k)) n))
                  ∙ get_or-grow q k v.head_in (omega arith)
                  ∙ ap (λ i. get_or q.elements ((q.head + i) % length q.elements) nil)
                      (omega arith)),
      )

  -- The end of Put, with room: it cannot fail, and the element comes last.
  put_last-room :
      (v : A) (q : Queue A)
      → IsValid q
      → q.count < length q.elements
      → (q' : Queue A) × (put_last nil v q ≡ some q')
        × IsValid q'
        × (contents nil q' ≡ contents nil q ++ (v ∷ []))
  unfolding put_last contents
  put_last-room v q h room = (
    record q { elements = set q.elements q.tail v; tail = (q.tail + 1) % len; count = q.count + 1 },
    rw (lt→ltb q.tail len tail_lt),
    record {
      some_size = h.some_size;
      head_in = rw (length-set q.elements q.tail v) h.head_in;
      count_in = rw (length-set q.elements q.tail v) (omega arith);
      tail_at = rw (length-set q.elements q.tail v) next_tail;
    },
    rw (length-set q.elements q.tail v, h.tail_at)
        (ap (λ c. cycle nil (set q.elements ((q.head + q.count) % len) v) len q.head 0 c)
            (omega arith)
          ∙ cycle-set nil q.elements len q.head q.count v refl h.head_in room),
  )
    where
      len : ℕ
      len = length q.elements

      tail_lt : q.tail < len
      tail_lt = rw h.tail_at (mod-lt' (q.head + q.count) len (omega (arith, h.head_in)))

      next_tail : (q.tail + 1) % len ≡ (q.head + (q.count + 1)) % len
      next_tail = rw (h.tail_at, mod-add-mod) (ap (λ t. t % len) (omega arith))

  -- Put on a valid queue never panics and puts the element last, growing the slice if it is full.
  pub put_lem :
      (v : A) (q : Queue A)
      → IsValid q
      → (q' : Queue A) × (put nil v q ≡ some q')
        × IsValid q'
        × (contents nil q' ≡ contents nil q ++ (v ∷ []))
  unfolding put
  put_lem v q h = elim (Bool-cases (q.head == q.tail && ltb 0 q.count)) [
    | inl full ↦
        let g = grow-IsValid q h (is_full full) in
        let p = put_last-room v (grow nil q) g.0 g.1 in
        (p.0, rw full p.1, p.2, p.3 ∙ ap (λ l. l ++ (v ∷ [])) g.2)
    | inr room ↦ let p = put_last-room v q h (has_room room) in (p.0, rw room p.1, p.2, p.3)
  ]
    where
      is_full : (q.head == q.tail && ltb 0 q.count) ≡ true → q.count ≡ length q.elements
      is_full e =
          ground (
            arith,
            h.tail_at,
            h.count_in,
            h.head_in,
            mod_wrap (q.head + q.count) (length q.elements),
          )

      has_room : (q.head == q.tail && ltb 0 q.count) ≡ false → q.count < length q.elements
      has_room e =
          ground (
            arith,
            h.tail_at,
            h.count_in,
            h.head_in,
            mod_wrap (q.head + q.count) (length q.elements),
          )
