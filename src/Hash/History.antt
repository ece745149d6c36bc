-- ===== src/Hash/History.antt =====
-- consistenthash.go: after any calls of AddWithReplicas and Remove, nodes stand only where they were
-- placed.
use mathlib.Core.Path.{subst}
use fastgozero.Prelude.{
  ℕ, zero, suc, ◌+◌, ◌≤◌, ◌<◌, ◌≡◌, refl, inl, inr, true, false, List, [], ◌∷◌, ◌==◌, ltb,
  if◌then◌else◌, Bool-cases, ==_iff, arith,
}
use fastgozero.Prelude.Texts.{Text, text_eq}
use fastgozero.Hash.{
  ConsistentHash, contains_node, add_node, at_key, place, replica_hash, add_loop, remove,
  add_with_replicas,
}
use fastgozero.Hash.Place.{place_here, place_other}
use fastgozero.Hash.Kept.{All, All-snoc, All-mono, IsOther}
use fastgozero.Hash.Gone.{
  contains_node-remove_node, contains_node-add_node, contains_node-add_node_old, Stands, IsPlaced,
  remove_loop-All, remove_loop_fields, remove-IsOther,
}

module _ {N : Type 0} where
  All-both : (P Q : N → Type 0) (xs : List N) → All P xs → All Q xs → All (λ x. P x × Q x) xs
  All-both P Q [] p q = tt
  All-both P Q (x ∷ xs) p q = ((p.0, q.0), All-both P Q xs p.1 q.1)

module _ {N : Type 0} (repr : N → Text) (itoa : ℕ → Text) where
  remove_fields :
      (h : ConsistentHash N) (node : N)
      → ((remove repr itoa h node).hash_func ≡ h.hash_func)
        × ((remove repr itoa h node).replicas ≡ h.replicas)
  unfolding remove
  remove_fields h node = elim (Bool-cases (contains_node (repr node) h.nodes)) [
    | inl known ↦ let f = remove_loop_fields repr itoa h.replicas 0 node h in rw known (f.0, f.1)
    | inr unknown ↦ rw unknown (refl, refl)
  ]

  remove_keeps :
      (P : N → Type 0) (h : ConsistentHash N) (node : N) (k : ℕ)
      → All P (at_key k h.ring)
      → All P (at_key k (remove repr itoa h node).ring)
  unfolding remove
  remove_keeps P h node k a = elim (Bool-cases (contains_node (repr node) h.nodes)) [
    | inl known ↦ rw known (remove_loop-All repr itoa P h.replicas 0 node h k a)
    | inr unknown ↦ rw unknown a
  ]

  -- A text that Remove does not take away stays known.
  remove_knows :
      (h : ConsistentHash N) (node : N) (s : Text)
      → text_eq s (repr node) ≡ false
      → contains_node s h.nodes ≡ true
      → contains_node s (remove repr itoa h node).nodes ≡ true
  unfolding remove
  remove_knows h node s ne there = elim (Bool-cases (contains_node (repr node) h.nodes)) [
    | inl known ↦
        let f = remove_loop_fields repr itoa h.replicas 0 node h in
        rw (known, f.2) (contains_node-remove_node (repr node) s h.nodes ne there)
    | inr unknown ↦ rw unknown there
  ]

  pub remove-IsPlaced :
      (h : ConsistentHash N) (node : N)
      → IsPlaced repr itoa h
      → IsPlaced repr itoa (remove repr itoa h node)
  remove-IsPlaced h node p k =
      let f = remove_fields h node in
      let both =
        All-both (Stands repr itoa h k) (IsOther repr (repr node)) _
          (remove_keeps (Stands repr itoa h k) h node k (p k))
          (remove-IsOther repr itoa h node p k) in
      All-mono (λ x. Stands repr itoa h k x × IsOther repr (repr node) x)
        (Stands repr itoa (remove repr itoa h node) k) (at_key k (remove repr itoa h node).ring)
        (λ x st. (remove_knows h node (repr x) st.1 st.0.0, rw (f.0, f.1) st.0.1)) both

  place-IsPlaced :
      (h : ConsistentHash N) (node : N) (i : ℕ)
      → i < h.replicas
      → contains_node (repr node) h.nodes ≡ true
      → IsPlaced repr itoa h
      → IsPlaced repr itoa (place (replica_hash repr itoa h node i) node h)
  place-IsPlaced h node i lt known p k =
      let j = replica_hash repr itoa h node i in
      elim (Bool-cases (j == k)) [
        | inl here ↦
            let same = (==_iff j k).0 here in
            subst (λ c. All (Stands repr itoa (place j node h) c) (at_key c (place j node h).ring))
              same
              (rw (place_here j node h) (
                All-snoc (Stands repr itoa (place j node h) j) (at_key j h.ring) node
                  (unfold place in p j) (unfold place replica_hash in (known, (i, lt, refl)))))
        | inr other ↦ rw (place_other k j node h (λ same. ground arith)) (unfold place in p k)
      ]

  add_loop-IsPlaced :
      (n i : ℕ) (node : N) (h : ConsistentHash N)
      → i + n ≤ h.replicas
      → contains_node (repr node) h.nodes ≡ true
      → IsPlaced repr itoa h
      → IsPlaced repr itoa (add_loop repr itoa n i node h)
  unfolding add_loop
  add_loop-IsPlaced zero i node h le known p = p
  add_loop-IsPlaced (suc n) i node h le known p =
      let k = replica_hash repr itoa h node i in
      add_loop-IsPlaced n (i + 1) node (place k node h) (unfold place in omega arith)
        (unfold place in known) (place-IsPlaced h node i (omega arith) known p)

  pub add_with_replicas-IsPlaced :
      (h : ConsistentHash N) (node : N) (n : ℕ)
      → IsPlaced repr itoa h
      → IsPlaced repr itoa (add_with_replicas repr itoa h node n)
  unfolding add_with_replicas
  add_with_replicas-IsPlaced h node n p =
      let g = remove repr itoa h node in
      let h2 = record g { nodes = add_node (repr node) g.nodes } in
      let some_replicas : (if ltb h.replicas n then h.replicas else n) ≤ h.replicas =
        ground arith in
      let f = remove_fields h node in
      let p2 : IsPlaced repr itoa h2 = λ k.
        All-mono (Stands repr itoa g k) (Stands repr itoa h2 k) (at_key k g.ring)
          (λ x st. (contains_node-add_node_old (repr node) (repr x) g.nodes st.0, st.1))
          (remove-IsPlaced h node p k) in
      add_loop-IsPlaced (if ltb h.replicas n then h.replicas else n) 0 node h2 (omega (arith, f.1))
        (contains_node-add_node (repr node) g.nodes) p2
