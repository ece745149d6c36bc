-- ===== src/Hash.antt =====
-- core/hash/consistenthash.go: ConsistentHash, a ring of hash values at which nodes stand. A node is
-- any value; `repr` gives its text (lang.Repr works by reflection) and `itoa` the decimal text of a
-- number. The hash function is a field, as in the source. Locks are not modelled: each method runs
-- whole.
pub mod Order
pub mod Place
pub mod Spread
pub mod Kept
pub mod Gone
pub mod History
pub mod Calls
mod Tests
use fastgozero.Prelude.{
  ℕ, zero, suc, ◌+◌, ◌*◌, ◌/◌, ◌%◌, Bool, true, false, not, ◌&&◌, ◌||◌, List, [], ◌∷◌, ◌++◌, Option,
  none, some, ◌==◌, leb, ltb, if◌then◌else◌, length, get_or, take, drop, ℕ_discrete, min,
}
use fastgozero.Prelude.Texts.{Text, text_eq}
use fastgozero.Prelude.Maps.{lookup, insert, delete}

abbrev pub min_replicas : ℕ
min_replicas = 100

abbrev pub top_weight : ℕ
top_weight = 100

pub record ConsistentHash (N : Type 0) : Type 0 where
  pub hash_func : Text → ℕ
  pub replicas : ℕ
  pub keys : List ℕ
  pub ring : List (ℕ × List N)
  pub nodes : List Text

-- What Get does: it finds a node, or none, or panics on a modulus of zero.
pub data Got (N : Type 0) : Type 0 where
  got : N → Got N
  nothing : Got N
  panic : Got N

-- NewCustomConsistentHash; `hash` is Hash, for a nil function.
unfoldable pub new_custom_consistent_hash :
    {N : Type 0} → (Text → ℕ) → ℕ → Option (Text → ℕ) → ConsistentHash N
new_custom_consistent_hash hash replicas fn = record {
  hash_func = elim fn [ none ↦ hash | some f ↦ f ];
  replicas = if ltb replicas min_replicas then min_replicas else replicas;
  keys = [];
  ring = [];
  nodes = [];
}

-- The keys in order, as sort.Slice leaves them.
unfoldable pub insert_key : ℕ → List ℕ → List ℕ
insert_key k [] = k ∷ []
insert_key k (j ∷ js) = if leb k j then k ∷ j ∷ js else j ∷ insert_key k js

unfoldable pub sort_keys : List ℕ → List ℕ
sort_keys [] = []
sort_keys (k ∷ ks) = insert_key k (sort_keys ks)

-- sort.Search: the first index whose key is at least the hash, or the number of keys.
unfoldable pub search_keys : ℕ → List ℕ → ℕ
search_keys hash [] = 0
search_keys hash (k ∷ ks) = if leb hash k then 0 else suc (search_keys hash ks)

unfoldable pub contains_node : Text → List Text → Bool
contains_node r [] = false
contains_node r (s ∷ ss) = text_eq s r || contains_node r ss

unfoldable pub add_node : Text → List Text → List Text
add_node r nodes = if contains_node r nodes then nodes else r ∷ nodes

unfoldable pub remove_node : Text → List Text → List Text
remove_node r [] = []
remove_node r (s ∷ ss) = if text_eq s r then remove_node r ss else s ∷ remove_node r ss

-- `h.ring[hash]`, the empty slice where nothing stands.
unfoldable pub at_key : {N : Type 0} → ℕ → List (ℕ × List N) → List N
at_key k ring = elim (lookup ℕ_discrete k ring) [ none ↦ [] | some xs ↦ xs ]

-- One round of the loop of AddWithReplicas.
unfoldable pub place : {N : Type 0} → ℕ → N → ConsistentHash N → ConsistentHash N
place k node h = record h {
  keys = h.keys ++ k ∷ [];
  ring = insert ℕ_discrete k (at_key k h.ring ++ node ∷ []) h.ring;
}

-- The part of Remove that takes one key out.
unfoldable pub cut_key : ℕ → List ℕ → List ℕ
cut_key k keys =
    let index = search_keys k keys in
    if ltb index (length keys) && get_or keys index 0 == k
    then take index keys ++ drop (index + 1) keys
    else keys

-- The choice of Get among the nodes of one key; `inner` is the hash of the inner text.
unfoldable pub choose : {N : Type 0} → ℕ → List N → Got N
choose inner [] = nothing
choose inner (x ∷ []) = got x
choose inner (x ∷ y ∷ xs) = got (get_or (x ∷ y ∷ xs) (inner % length (x ∷ y ∷ xs)) x)

-- Get, on the texts of its argument: repr and innerRepr.
unfoldable pub get_node : {N : Type 0} → ConsistentHash N → Text → Text → Got N
get_node h v inner = elim h.ring [
  | [] ↦ nothing
  | e ∷ es ↦
      if length h.keys == 0
      then panic
      else choose (h.hash_func inner)
          (at_key (get_or h.keys (search_keys (h.hash_func v) h.keys % length h.keys) 0) h.ring)
]

module _ {N : Type 0} (repr : N → Text) where
  unfoldable pub keep_others : Text → List N → List N
  keep_others r [] = []
  keep_others r (x ∷ xs) = if text_eq (repr x) r then keep_others r xs else x ∷ keep_others r xs

  unfoldable pub remove_ring_node : ℕ → Text → List (ℕ × List N) → List (ℕ × List N)
  remove_ring_node k r ring = elim (lookup ℕ_discrete k ring) [
    | none ↦ ring
    | some xs ↦ elim (keep_others r xs) [
      | [] ↦ delete ℕ_discrete k ring
      | y ∷ ys ↦ insert ℕ_discrete k (y ∷ ys) ring
    ]
  ]

module _ {N : Type 0} (repr : N → Text) (itoa : ℕ → Text) where
  unfoldable pub replica_hash : ConsistentHash N → N → ℕ → ℕ
  replica_hash h node i = h.hash_func (repr node ++ itoa i)

  unfoldable pub add_loop : ℕ → ℕ → N → ConsistentHash N → ConsistentHash N
  add_loop zero i node h = h
  add_loop (suc n) i node h = add_loop n (i + 1) node (place (replica_hash h node i) node h)

  unfoldable pub remove_loop : ℕ → ℕ → N → ConsistentHash N → ConsistentHash N
  remove_loop zero i node h = h
  remove_loop (suc n) i node h =
      let k = replica_hash h node i in
      remove_loop n (i + 1) node
        (record h { keys = cut_key k h.keys; ring = remove_ring_node repr k (repr node) h.ring })

  unfoldable pub remove : ConsistentHash N → N → ConsistentHash N
  remove h node =
      if not (contains_node (repr node) h.nodes)
      then h
      else (let h' = remove_loop h.replicas 0 node h in
          record h' { nodes = remove_node (repr node) h'.nodes })

  unfoldable pub add_with_replicas : ConsistentHash N → N → ℕ → ConsistentHash N
  add_with_replicas h node replicas =
      let h1 = remove h node in
      let h2 = record h1 { nodes = add_node (repr node) h1.nodes } in
      let h3 = add_loop (if ltb h.replicas replicas then h.replicas else replicas) 0 node h2 in
      record h3 { keys = sort_keys h3.keys }

  unfoldable pub add_to_ring : ConsistentHash N → N → ConsistentHash N
  add_to_ring h node = add_with_replicas h node h.replicas

  unfoldable pub add_with_weight : ConsistentHash N → N → ℕ → ConsistentHash N
  add_with_weight h node weight = add_with_replicas h node (h.replicas * weight / top_weight)
