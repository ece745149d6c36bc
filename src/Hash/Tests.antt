-- ===== src/Hash/Tests.antt =====
-- Runs of ConsistentHash, and the theorems at inputs.
use mathlib.Core.Path.{subst}
use fastgozero.Prelude.{
  ℕ, ◌+◌, ◌*◌, ◌≡◌, refl, ◌⊎◌, true, false, List, [], ◌∷◌, none, get_or, ℕ_discrete, arith,
}
use fastgozero.Prelude.Texts.{Text, text_eq}
use fastgozero.Prelude.Maps.{lookup, insert, delete}
use fastgozero.Hash.{
  ConsistentHash, got, panic, contains_node, add_node, remove_node, at_key, place, cut_key, choose,
  get_node, replica_hash, add_loop, keep_others, remove_ring_node, remove_loop, remove,
  add_with_replicas, search_keys, sort_keys, insert_key, new_custom_consistent_hash,
}
use fastgozero.Hash.Order.{has}
use fastgozero.Hash.Place.{IsValid, hashes}
use fastgozero.Hash.Spread.{IsFresh, get_node-add_with_replicas}
use fastgozero.Hash.Calls.{Call, add_call, run_calls, get_node-remove}

abbrev single : ℕ → Text
single n = n ∷ []

abbrev digits : Text → ℕ
digits t = get_or t 0 0 * 1000 + get_or t 1 0

-- Two nodes with a replica each.
abbrev two_nodes : ConsistentHash ℕ
two_nodes = record {
  hash_func = digits;
  replicas = 1;
  keys = 1000 ∷ 2000 ∷ [];
  ring = (1000, 1 ∷ []) ∷ (2000, 2 ∷ []) ∷ [];
  nodes = (1 ∷ []) ∷ (2 ∷ []) ∷ [];
}

two_nodes-IsValid : IsValid two_nodes
unfolding has at_key lookup ℕ_discrete
two_nodes-IsValid = record { sorted = omega arith; covered = λ k h. ground arith }

three-IsFresh : IsFresh single single two_nodes 3 5
unfolding has at_key lookup ℕ_discrete hashes replica_hash
three-IsFresh j h =
    let e : 3000 ≡ j = ground arith in
    subst (λ i. (has i two_nodes.keys ≡ false) × (at_key i two_nodes.ring ≡ [])) e (refl, refl)

get_node-add_with_replicas_example :
    (get_node (add_with_replicas single single two_nodes 3 5) (7 ∷ []) (7 ∷ []) ≡ got 3)
    ⊎ (get_node (add_with_replicas single single two_nodes 3 5) (7 ∷ []) (7 ∷ [])
        ≡ get_node two_nodes (7 ∷ []) (7 ∷ []))
unfolding contains_node text_eq
get_node-add_with_replicas_example =
    get_node-add_with_replicas single single two_nodes 3 5 refl three-IsFresh two_nodes-IsValid
      (omega arith) (7 ∷ []) (7 ∷ [])

-- Two nodes are added and the first is removed.
abbrev calls : List (Call ℕ)
calls = add_call 1 2 ∷ add_call 2 1 ∷ []

get_node-remove_example :
    (text_eq (single 2) (single 1) ≡ false)
    × (contains_node
          (single 2)
          (remove single single
            (run_calls single single calls (new_custom_consistent_hash digits 0 none))
            1).nodes
        ≡ true)
unfolding run_calls new_custom_consistent_hash remove remove_loop remove_ring_node keep_others
    remove_node cut_key search_keys add_with_replicas add_loop add_node contains_node place
    replica_hash sort_keys insert_key get_node choose at_key lookup insert delete ℕ_discrete text_eq
get_node-remove_example =
    get_node-remove single single digits 0 none calls 1 2 (1 ∷ []) (1 ∷ []) refl

-- Remove of a node whose replicas were never placed cuts the keys of another node with the same hash
-- values, and leaves that node in the ring: Get then divides by zero.
abbrev colliding : ConsistentHash ℕ
colliding = record { hash_func = λ t. 7; replicas = 1; keys = []; ring = []; nodes = [] }

remove_panics :
    get_node
      (remove single single
        (add_with_replicas single single (add_with_replicas single single colliding 1 1) 2 0)
        2)
      (1 ∷ [])
      (1 ∷ [])
    ≡ panic
unfolding remove remove_loop remove_ring_node keep_others remove_node cut_key search_keys
    add_with_replicas add_loop add_node contains_node place replica_hash sort_keys insert_key
    get_node choose at_key lookup insert delete ℕ_discrete text_eq
remove_panics = refl
