-- ===== src/Hash/Calls.antt =====
-- consistenthash.go: what Get gives after any calls of AddWithReplicas and Remove.
use fastgozero.Prelude.{ℕ, ◌≡◌, true, false, List, [], ◌∷◌, Option}
use fastgozero.Prelude.Texts.{Text, text_eq}
use fastgozero.Prelude.Maps.{lookup}
use fastgozero.Hash.{
  ConsistentHash, got, contains_node, at_key, get_node, remove, add_with_replicas,
  new_custom_consistent_hash,
}
use fastgozero.Hash.Kept.{All-mono, get_node-All, IsOther}
use fastgozero.Hash.Gone.{Stands, IsPlaced, remove-IsOther}
use fastgozero.Hash.History.{remove-IsPlaced, add_with_replicas-IsPlaced}

-- The calls that change a ConsistentHash.
pub data Call (N : Type 0) : Type 0 where
  add_call : N → ℕ → Call N
  remove_call : N → Call N

module _ {N : Type 0} (repr : N → Text) (itoa : ℕ → Text) where
  unfoldable pub run_calls : List (Call N) → ConsistentHash N → ConsistentHash N
  run_calls [] h = h
  run_calls (add_call node n ∷ cs) h = run_calls cs (add_with_replicas repr itoa h node n)
  run_calls (remove_call node ∷ cs) h = run_calls cs (remove repr itoa h node)

  run_calls-IsPlaced :
      (cs : List (Call N)) (h : ConsistentHash N)
      → IsPlaced repr itoa h
      → IsPlaced repr itoa (run_calls cs h)
  unfolding run_calls
  run_calls-IsPlaced [] h p = p
  run_calls-IsPlaced (add_call node n ∷ cs) h p =
      run_calls-IsPlaced cs (add_with_replicas repr itoa h node n)
        (add_with_replicas-IsPlaced repr itoa h node n p)
  run_calls-IsPlaced (remove_call node ∷ cs) h p =
      run_calls-IsPlaced cs (remove repr itoa h node) (remove-IsPlaced repr itoa h node p)

  new_custom_consistent_hash-IsPlaced :
      (hash : Text → ℕ) (replicas : ℕ) (fn : Option (Text → ℕ))
      → IsPlaced repr itoa (new_custom_consistent_hash hash replicas fn)
  unfolding new_custom_consistent_hash at_key lookup
  new_custom_consistent_hash-IsPlaced hash replicas fn k = tt

  -- After any calls of AddWithReplicas and Remove on a new ConsistentHash, with any number of
  -- replicas and also where hash values collide: once a node is removed, Get gives no node of its
  -- text, and what Get gives has a text that is among the known ones.
  pub get_node-remove :
      (hash : Text → ℕ) (replicas : ℕ) (fn : Option (Text → ℕ)) (cs : List (Call N)) (node x : N)
      (v inner : Text)
      → get_node
          (remove repr itoa (run_calls cs (new_custom_consistent_hash hash replicas fn)) node)
          v
          inner
        ≡ got x
      → (text_eq (repr x) (repr node) ≡ false)
        × (contains_node
              (repr x)
              (remove repr itoa
                (run_calls cs (new_custom_consistent_hash hash replicas fn))
                node).nodes
            ≡ true)
  get_node-remove hash replicas fn cs node x v inner e =
      let h = run_calls cs (new_custom_consistent_hash hash replicas fn) in
      let p =
        run_calls-IsPlaced cs (new_custom_consistent_hash hash replicas fn)
          (new_custom_consistent_hash-IsPlaced hash replicas fn) in
      let g = remove repr itoa h node in
      (
        get_node-All (IsOther repr (repr node)) g v inner x (remove-IsOther repr itoa h node p) e,
        get_node-All (λ y. contains_node (repr y) g.nodes ≡ true) g v inner x
            (λ k.
              All-mono (Stands repr itoa g k) (λ y. contains_node (repr y) g.nodes ≡ true)
                (at_key k g.ring) (λ y st. st.0) (remove-IsPlaced repr itoa h node p k))
            e,
      )
