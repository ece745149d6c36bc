-- ===== src/Search/Refine.antt =====
-- Tree of core/search/tree.go against the set of the routes that were added to it.
use fastgozero.Prelude.{ℕ, ◌≡◌, refl, List, [], ◌∷◌, ◌⊎◌, ◌↔◌, inl, inr, none, some}
use fastgozero.Search.{Token, Params, Node, new_node, add, add_route, search, split_route, slash}
use fastgozero.Search.Find.{Stored, fits, search-Found}
use fastgozero.Search.Complete.{search_complete}
use fastgozero.Search.Added.{path_of, new_node-Stored, add-Stored}

module _ {V : Type 0} where
  -- Tree.Add for each route and item; the routes start with a slash, which is not listed.
  unfoldable pub add_all : List (List ℕ × V) → Node V → Node V
  add_all [] root = root
  add_all ((route, v) ∷ routes) root = add_all routes (add_route (slash ∷ route) (some v) root).0

  -- One of the routes was added without an error, and it has these tokens and this item.
  abbrev pub Accepted : List Token → V → List (List ℕ × V) → Node V → Type 0
  Accepted ks w [] root = ⊥
  Accepted ks w ((route, v) ∷ routes) root =
      (((add_route (slash ∷ route) (some v) root).1 ≡ none)
        × (ks ≡ path_of (split_route route).0 (split_route route).1)
        × (w ≡ v))
      ⊎ Accepted ks w routes (add_route (slash ∷ route) (some v) root).0

  add_route-eq :
      (route : List ℕ) (v : V) (root : Node V)
      → add_route (slash ∷ route) (some v) root
        ≡ add (split_route route).0 (split_route route).1 v root
  unfolding add_route
  add_route-eq route v root = refl

  add_route-Stored :
      (route : List ℕ) (v : V) (root : Node V) (ks : List Token) (w : V)
      → Stored ks w (add_route (slash ∷ route) (some v) root).0 ↔ (
          Stored ks w root
          ⊎ (((add_route (slash ∷ route) (some v) root).1 ≡ none)
              × (ks ≡ path_of (split_route route).0 (split_route route).1)
              × (w ≡ v)))
  unfolding add_route
  add_route-Stored route v root ks w =
      add-Stored (split_route route).0 (split_route route).1 v root ks w

  add_all-Stored :
      (routes : List (List ℕ × V)) (root : Node V) (ks : List Token) (w : V)
      → Stored ks w (add_all routes root) ↔ (Stored ks w root ⊎ Accepted ks w routes root)
  unfolding add_all
  add_all-Stored [] root ks w =
      (inl, λ h. elim h [ inl s ↦ s | inr none_there ↦ absurd none_there ])
  add_all-Stored ((route, v) ∷ routes) root ks w =
      let root' = (add_route (slash ∷ route) (some v) root).0 in
      let (there, back) = add_all-Stored routes root' ks w in
      let (one, one_back) = add_route-Stored route v root ks w in
      (
        λ h. elim (there h) [
          | inl s ↦ elim (one s) [ inl old ↦ inl old | inr new ↦ inr (inl new) ]
          | inr later ↦ inr (inr later)
        ],
        λ h. elim h [
          | inl old ↦ back (inl (one_back (inl old)))
          | inr s ↦ elim s [
            | inl new ↦ back (inl (one_back (inr new)))
            | inr later ↦ back (inr later)
          ]
        ],
      )

  -- A path of a result: an accepted route that fits it, with the item and the parameters.
  abbrev pub Serves : List (List ℕ × V) → List ℕ → V × Params → Type 0
  Serves routes path r =
      (ks : List Token) × Accepted ks r.0 routes (new_node none)
      × (fits ks (split_route path).0 (split_route path).1 ≡ some r.1)

  -- A new tree, after any Adds, of which some may fail, finds an item for a path that starts with a
  -- slash only if a route that was added without an error fits it: the item is that of the route, and
  -- the parameters are what its names stand for.
  pub search-Serves :
      (routes : List (List ℕ × V)) (path : List ℕ) (v : V) (ps : Params)
      → search (slash ∷ path) (add_all routes (new_node none)) ≡ some (v, ps)
      → Serves routes path (v, ps)
  search-Serves routes path v ps h =
      let (ks, st, fit) = search-Found path (add_all routes (new_node none)) v ps h in
      elim ((add_all-Stored routes (new_node none) ks v).0 st) [
        | inl old ↦ absurd (new_node-Stored ks v old)
        | inr new ↦ (ks, new, fit)
      ]

  -- And it finds one, if a route that was added without an error fits the path.
  pub search_served :
      (routes : List (List ℕ × V)) (path : List ℕ) (v : V) (ps : Params)
      → Serves routes path (v, ps)
      → (r : V × Params) × (search (slash ∷ path) (add_all routes (new_node none)) ≡ some r)
  search_served routes path v ps (ks, accepted, fit) =
      search_complete path (add_all routes (new_node none)) ks v ps
        ((add_all-Stored routes (new_node none) ks v).1 (inr accepted)) fit
