-- ===== src/Collection/Cache/Indexed.antt =====
-- The map `elements` of keyLru (core/collection/cache.go) against its list.
use fastgozero.Prelude.{◌≡◌, true, false, List, ◌∷◌, none, some, arith, if◌then◌else◌}
use fastgozero.Prelude.Maps.{lookup, insert, delete, lookup-insert, lookup-delete}
use fastgozero.Collection.Cache.{remove_key}
use fastgozero.Collection.Cache.Valid.{has_key, NoDup, has_key-remove_key}

module _ {K : Type 0} (dec : Discrete K) where
  -- The map leads from each key of the list to its element, and from no other key.
  abbrev pub IsIndexed : List K → List (K × K) → Type 0
  IsIndexed evicts elements =
      (j : K) → lookup dec j elements ≡ (if has_key dec j evicts then some j else none)

  pub push-IsIndexed :
      (k : K) (evicts : List K) (elements : List (K × K))
      → IsIndexed evicts elements
      → IsIndexed (k ∷ evicts) (insert dec k k elements)
  unfolding has_key
  push-IsIndexed k evicts elements i j = ground (arith, lookup-insert dec k j k elements, i j)

  pub front-IsIndexed :
      (k : K) (evicts : List K) (elements : List (K × K))
      → NoDup dec evicts
      → has_key dec k evicts ≡ true
      → IsIndexed evicts elements
      → IsIndexed (k ∷ remove_key dec k evicts) elements
  unfolding has_key
  front-IsIndexed k evicts elements d old i j =
      ground (arith, has_key-remove_key dec k j evicts d, i j, old)

  pub remove-IsIndexed :
      (k : K) (evicts : List K) (elements : List (K × K))
      → NoDup dec evicts
      → IsIndexed evicts elements
      → IsIndexed (remove_key dec k evicts) (delete dec k elements)
  remove-IsIndexed k evicts elements d i j =
      ground (arith, has_key-remove_key dec k j evicts d, lookup-delete dec k j elements, i j)

  pub found :
      (k : K) (evicts : List K) (elements : List (K × K))
      → IsIndexed evicts elements
      → has_key dec k evicts ≡ true
      → lookup dec k elements ≡ some k
  found k evicts elements i old = ground (arith, i k, old)

  pub missing :
      (k : K) (evicts : List K) (elements : List (K × K))
      → IsIndexed evicts elements
      → has_key dec k evicts ≡ false
      → lookup dec k elements ≡ none
  missing k evicts elements i new = ground (arith, i k, new)
