-- ===== src/Collection/Ring/Recent.antt =====
-- A ring against the history of what was added: Take returns the most recent elements, in order.
use mathlib.Core.List.{foldl}
use mathlib.Core.Path.{ap₂}
use fastgozero.Prelude.{
  ℕ, suc, ◌+◌, ◌-◌, ◌*◌, ◌%◌, ◌≤◌, ◌<◌, ◌≡◌, ap, sym, ◌∙◌, List, [], ◌∷◌, ◌++◌, some, arith, leb,
  if◌then◌else◌, length, get_or, set, drop_all, lt→ltb, length-append, length-set, length-replicate,
  append-nil, append_assoc,
}
use native.Mathlib.Decide.{dec_lt}
use fastgozero.Prelude.Cyclic.{cycle, cycle-set, cycle-turn, length-cycle, mod_wrap, mod-lt'}
use fastgozero.Collection.Ring.{Ring, new_ring, add, take_all}
use fastgozero.Collection.Ring.Last.{last_n, last_n_short, last_n_full, last_n-snoc}

-- A ring of `n` elements: the index never reaches `2 n`, so it cannot overflow.
pub record IsValid {ℓ} {A : Type ℓ} (n : ℕ) (r : Ring A) : Type ℓ where
  pub sized : length r.elements ≡ n
  pub some_room : 0 < n
  pub bounded : r.index < n * 2

module _ {ℓ} {A : Type ℓ} where
  -- NewRing accepts every positive size and makes a valid, empty ring of it.
  pub new_ring-IsValid :
      (nil : A) (n : ℕ) {r : Ring A} → new_ring nil n ≡ some r → IsValid n r × (take_all nil r ≡ [])
  unfolding new_ring take_all cycle
  new_ring-IsValid nil n h = ground (arith, length-replicate n nil)

  -- Add keeps the size of the ring and the bound of its index.
  pub add-IsValid : (n : ℕ) (v : A) {r : Ring A} → IsValid n r → IsValid n (add v r)
  unfolding add
  add-IsValid n v {r} h = ground (arith, length-set r.elements (r.index % length r.elements) v)

  add-elements :
      (n : ℕ) (v : A) (r : Ring A)
      → length r.elements ≡ n
      → (add v r).elements ≡ set r.elements (r.index % n) v
  unfolding add
  add-elements n v r e = rw e

  add-index :
      (n : ℕ) (v : A) (r : Ring A)
      → length r.elements ≡ n
      → (add v r).index ≡ (if leb (n * 2) (r.index + 1) then r.index + 1 - n else r.index + 1)
  unfolding add
  add-index n v r e = rw e

  add-index_ge : (n : ℕ) (v : A) (r : Ring A) → IsValid n r → n ≤ r.index → n ≤ (add v r).index
  add-index_ge n v r h le = ground (arith, add-index n v r h.sized)

  -- The index goes one position on, round the end.
  add-index_turns :
      (n : ℕ) (v : A) (r : Ring A)
      → IsValid n r
      → n ≤ r.index
      → (add v r).index % n ≡ (r.index % n + 1) % n
  add-index_turns n v r h le = ground (
    arith,
    add-index n v r h.sized,
    mod_wrap r.index n (omega arith),
    mod_wrap (r.index % n + 1) n,
    mod_wrap (add v r).index n,
  )

  module _ (nil : A) where
    take_all_part :
        (n : ℕ) (r : Ring A)
        → length r.elements ≡ n
        → r.index ≤ n
        → take_all nil r ≡ cycle nil r.elements n 0 0 r.index
    unfolding take_all
    take_all_part n r e h = ground arith

    take_all_full :
        (n : ℕ) (r : Ring A)
        → length r.elements ≡ n
        → n < r.index
        → take_all nil r ≡ cycle nil r.elements n (r.index % n) 0 n
    unfolding take_all
    take_all_full n r e h = rw (e, lt→ltb n r.index h)

    -- Add on a ring that is not full.
    take_all-add_part :
        (n : ℕ) (r : Ring A) (v : A)
        → IsValid n r
        → r.index < n
        → take_all nil (add v r) ≡ take_all nil r ++ (v ∷ [])
    unfolding add
    take_all-add_part n r v h lt =
        take_all_part n (add v r) (length-set r.elements _ v ∙ h.sized) (rw next le_next)
        ∙ ap₂ (λ k i. cycle nil k n 0 0 i) elements next
        ∙ cycle-set nil r.elements n 0 r.index v h.sized h.some_room lt
        ∙ ap (λ l. l ++ (v ∷ [])) (sym (take_all_part n r h.sized (omega arith)))
      where
        le_next : suc r.index ≤ n
        le_next = lt

        next : (add v r).index ≡ suc r.index
        next = ground (arith, h.sized)

        elements : (add v r).elements ≡ set r.elements ((0 + r.index) % n) v
        elements = rw h.sized (ap (λ k. set r.elements (k % n) v) (omega arith))

    -- Add on a full ring: the oldest element goes.
    cycle-add_full :
        (n m s t : ℕ) (els : List A) (v : A)
        → length els ≡ n
        → n ≡ suc m
        → s < n
        → t ≡ (s + 1) % n
        → cycle nil (set els s v) n t 0 (suc m) ≡ last_n n (cycle nil els n s 0 (suc m) ++ (v ∷ []))
    unfolding cycle
    cycle-add_full n m s t els v e em hs et =
        cycle-turn nil n m s t els v e em hs et
        ∙ sym (
            ap (λ k. last_n k (get_or els ((s + 0) % n) nil ∷ rest)) rest_length
            ∙ last_n_full (get_or els ((s + 0) % n) nil) rest)
      where
        rest : List A
        rest = cycle nil els n s 1 m ++ (v ∷ [])

        rest_length : n ≡ length rest
        rest_length =
            omega
              (arith, length-append (cycle nil els n s 1 m) (v ∷ []), length-cycle nil els n s 1 m)

    -- A full ring reads from its index on, whether or not the index has passed the end.
    take_all_round :
        (n : ℕ) (r : Ring A)
        → IsValid n r
        → n ≤ r.index
        → take_all nil r ≡ cycle nil r.elements n (r.index % n) 0 n
    take_all_round n r h le = elim (dec_lt n r.index) [
      | yes lt ↦ take_all_full n r h.sized lt
      | no ge ↦
          take_all_part n r h.sized (omega arith)
          ∙ ap₂ (λ k i. cycle nil r.elements n k 0 i)
              (ground (arith, mod_wrap r.index n (omega arith))) (omega arith)
    ]

    take_all-add_round :
        (n : ℕ) (r : Ring A) (v : A)
        → IsValid n r
        → n ≤ r.index
        → take_all nil (add v r) ≡ last_n n (take_all nil r ++ (v ∷ []))
    take_all-add_round n r v h le =
        take_all_round n (add v r) (add-IsValid n v h) (next_ge)
        ∙ ap₂ (λ k c. cycle nil k n ((add v r).index % n) 0 c) elements size
        ∙ cycle-add_full n (n - 1) (r.index % n) ((add v r).index % n) r.elements v h.sized
            (omega arith) (mod-lt' r.index n (omega arith)) turned
        ∙ ap (λ c. last_n n (cycle nil r.elements n (r.index % n) 0 c ++ (v ∷ []))) (sym size)
        ∙ ap (λ l. last_n n (l ++ (v ∷ []))) (sym (take_all_round n r h le))
      where
        size : n ≡ suc (n - 1)
        size = omega arith

        next_ge : n ≤ (add v r).index
        next_ge = add-index_ge n v r h le

        elements : (add v r).elements ≡ set r.elements (r.index % n) v
        elements = add-elements n v r h.sized

        turned : (add v r).index % n ≡ (r.index % n + 1) % n
        turned = add-index_turns n v r h le

    -- What Take returns after an Add: what it returned before with the element at the end, cut to
    -- the last `n`.
    pub take_all-add :
        (n : ℕ) (r : Ring A) (v : A)
        → IsValid n r
        → take_all nil (add v r) ≡ last_n n (take_all nil r ++ (v ∷ []))
    take_all-add n r v h = elim (dec_lt r.index n) [
      | yes lt ↦
          take_all-add_part n r v h lt
          ∙ sym (last_n_short n (take_all nil r ++ (v ∷ [])) (short lt))
      | no ge ↦ take_all-add_round n r v h (omega arith)
    ]
      where
        short : r.index < n → length (take_all nil r ++ (v ∷ [])) ≤ n
        short lt = omega (
          arith,
          length-append (take_all nil r) (v ∷ []),
          ap length (take_all_part n r h.sized (omega arith)),
          length-cycle nil r.elements n 0 0 r.index,
        )

    take_all-foldl :
        (n : ℕ) (vs : List A) (r : Ring A) (hist : List A)
        → IsValid n r
        → take_all nil r ≡ last_n n hist
        → take_all nil (foldl (λ q v. add v q) r vs) ≡ last_n n (hist ++ vs)
    take_all-foldl n [] r hist h e = e ∙ ap (last_n n) (sym (append-nil hist))
    take_all-foldl n (v ∷ vs) r hist h e =
        take_all-foldl n vs (add v r) (hist ++ (v ∷ [])) (add-IsValid n v h) (
          take_all-add n r v h
          ∙ ap (λ l. last_n n (l ++ (v ∷ []))) e
          ∙ last_n-snoc n hist v h.some_room)
        ∙ ap (last_n n) (append_assoc hist (v ∷ []) vs)

    -- A ring made for `n` elements returns, after any sequence of Adds, the last `n` elements
    -- added (all of them if there were fewer), oldest first.
    pub take_all_recent :
        (n : ℕ) (vs : List A) {r : Ring A}
        → new_ring nil n ≡ some r
        → take_all nil (foldl (λ q v. add v q) r vs) ≡ last_n n vs
    unfolding last_n
    take_all_recent n vs {r} made =
        take_all-foldl n vs r [] (new_ring-IsValid nil n made).0
          ((new_ring-IsValid nil n made).1 ∙ sym (drop_all (0 - n) [] (omega arith)))
