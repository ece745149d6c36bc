-- ===== src/Search/Tests.antt =====
-- Runs of core/search/tree.go.
use fastgozero.Prelude.{ℕ, ◌≡◌, refl, List, [], ◌∷◌, ◌⊎◌, ◌↔◌, none, some}
use fastgozero.Search.{
  Params, Node, new_node, add, add_route, search, dup_item, dup_slash, not_from_root, next,
}
use fastgozero.Search.Find.{Stored}
use fastgozero.Search.Added.{path_of, add-Stored}
use fastgozero.Search.Refine.{add_all, Serves, search-Serves, search_served}

-- The routes /a/:b, /a/c and /a//d (without the first slash), with items; the last is refused.
abbrev routes : List (List ℕ × ℕ)
routes =
    ((97 ∷ 47 ∷ 58 ∷ 98 ∷ []), 1) ∷ ((97 ∷ 47 ∷ 99 ∷ []), 2) ∷ ((97 ∷ 47 ∷ 47 ∷ 100 ∷ []), 3) ∷ []

abbrev tree : Node ℕ
tree = add_all routes (new_node none)

-- /a/c has the item of the route without a name, /a/x that of the other with its parameter.
search-tree :
    (search (47 ∷ 97 ∷ 47 ∷ 99 ∷ []) tree ≡ some (2, []))
    × (search (47 ∷ 97 ∷ 47 ∷ 120 ∷ 47 ∷ []) tree ≡ some (1, ((98 ∷ []), (120 ∷ [])) ∷ []))
    × (search (47 ∷ 97 ∷ []) tree ≡ none)
unfolding search add_all add_route next new_node
search-tree = (refl, refl, refl)

add_route-errors :
    ((add_route (47 ∷ 97 ∷ 47 ∷ 99 ∷ []) (some 5) tree).1 ≡ some dup_item)
    × ((add_route (47 ∷ 97 ∷ 47 ∷ 47 ∷ []) (some 5) tree).1 ≡ some dup_slash)
    × ((add_route (97 ∷ []) (some 5) tree).1 ≡ some not_from_root)
unfolding add_all add_route new_node
add_route-errors = (refl, refl, refl)

add-Stored_example : Stored ((97 ∷ []) ∷ []) 4 (add (97 ∷ []) [] 4 tree).0 ↔ (
    Stored ((97 ∷ []) ∷ []) 4 tree
    ⊎ (((add (97 ∷ []) [] 4 tree).1 ≡ none)
        × (((97 ∷ []) ∷ []) ≡ path_of (97 ∷ []) [])
        × (◌≡◌ {A = ℕ} 4 4)))
add-Stored_example = add-Stored (97 ∷ []) [] 4 tree ((97 ∷ []) ∷ []) 4

search-Serves_example : Serves routes (97 ∷ 47 ∷ 120 ∷ []) (1, ((98 ∷ []), (120 ∷ [])) ∷ [])
search-Serves_example =
    search-Serves routes (97 ∷ 47 ∷ 120 ∷ []) 1 (((98 ∷ []), (120 ∷ [])) ∷ [])
      (unfold search add_all add_route next new_node in refl)

search_served_example : (r : ℕ × Params) × (search (47 ∷ 97 ∷ 47 ∷ 120 ∷ []) tree ≡ some r)
search_served_example =
    search_served routes (97 ∷ 47 ∷ 120 ∷ []) 1 (((98 ∷ []), (120 ∷ [])) ∷ []) search-Serves_example
