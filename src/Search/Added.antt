-- ===== src/Search/Added.antt =====
-- What Add of core/search/tree.go stores: the item at its route, and nothing else changes.
use mathlib.Core.Path.{ap₂}
use mathlib.Core.Option.{some-injective}
use fastgozero.Prelude.{
  ◌≡◌, refl, ap, sym, ◌∙◌, true, List, [], ◌∷◌, ◌⊎◌, ◌↔◌, inl, inr, Option, none, some, Bool-cases,
  drop,
}
use fastgozero.Search.{
  Token, Node, node, Children, no_child, child, SearchError, same_token, is_named, new_node,
  set_item, in_child, in_children, add,
}
use fastgozero.Search.Find.{HasChild, Stored, same_token-eq}

-- The tokens that a route leads to: a slash at its end leads to the same node as without it.
unfoldable pub path_of : Token → List Token → List Token
path_of [] [] = []
path_of (c ∷ token) [] = (c ∷ token) ∷ []
path_of token (t ∷ rest) = token ∷ path_of t rest

cons_head : {j k : Token} {js ks : List Token} → (j ∷ js) ≡ (k ∷ ks) → j ≡ k
cons_head {j} h = ap (λ l. elim l [ [] ↦ j | a ∷ l' ↦ a ]) h

cons_tail : {j k : Token} {js ks : List Token} → (j ∷ js) ≡ (k ∷ ks) → js ≡ ks
cons_tail h = ap (drop 1) h

module _ {V : Type 0} where
  -- The change is one that stores `v` at `path`, if it ends with no error, and else stores nothing.
  abbrev Adds : List Token → V → (Node V → Node V × Option SearchError) → Type 0
  Adds path v f =
      (n : Node V) (ks : List Token) (w : V)
      → Stored ks w (f n).0 ↔ (Stored ks w n ⊎ (((f n).1 ≡ none) × (ks ≡ path) × (w ≡ v)))

  pub new_node-Stored : (ks : List Token) (w : V) → Stored ks w (new_node none) → ⊥
  unfolding new_node
  new_node-Stored [] w h = absurd cc
  new_node-Stored (k ∷ ks) w (inl h) = h
  new_node-Stored (k ∷ ks) w (inr h) = h

  set_item-Adds : (v : V) → Adds [] v (set_item v)
  unfolding set_item
  set_item-Adds v (node (some x) statics named) ks w =
      (inl, λ h. elim h [ inl s ↦ s | inr (e, _, _) ↦ absurd cc ])
  set_item-Adds v (node none statics named) [] w = (
    λ h. inr (refl, refl, sym (some-injective v w h)),
    λ h. elim h [ inl s ↦ absurd cc | inr (e, _, same) ↦ ap some (sym same) ],
  )
  set_item-Adds v (node none statics named) (k ∷ ks) w =
      (inl, λ h. elim h [ inl s ↦ s | inr (e, same, _) ↦ absurd cc ])

  -- The same for a change of the children of one kind, at one token more.
  in_child-Adds :
      (token : Token) (path : List Token) (v : V) (f : Node V → Node V × Option SearchError)
      → Adds path v f
      → (children : Children V) (k : Token) (ks : List Token) (w : V)
      → HasChild k (Stored ks w) (in_child token f children).0 ↔ (
          HasChild k (Stored ks w) children
          ⊎ (((in_child token f children).1 ≡ none) × ((k ∷ ks) ≡ (token ∷ path)) × (w ≡ v)))
  unfolding in_child
  in_child-Adds token path v f adds no_child k ks w = (there, back)
    where
      there :
          HasChild k (Stored ks w) (in_child token f no_child).0
          → ⊥ ⊎ (((in_child token f no_child).1 ≡ none) × ((k ∷ ks) ≡ (token ∷ path)) × (w ≡ v))
      there (inl (same, st)) = elim ((adds (new_node none) ks w).0 st) [
        | inl old ↦ absurd (new_node-Stored ks w old)
        | inr (ok, at, value) ↦ inr (ok, ap₂ ◌∷◌ (sym same) at, value)
      ]
      there (inr none_there) = absurd none_there

      back :
          ⊥ ⊎ (((in_child token f no_child).1 ≡ none) × ((k ∷ ks) ≡ (token ∷ path)) × (w ≡ v))
          → HasChild k (Stored ks w) (in_child token f no_child).0
      back (inl none_there) = absurd none_there
      back (inr (ok, at, value)) =
          inl (sym (cons_head at), (adds (new_node none) ks w).1 (inr (ok, cons_tail at, value)))
  in_child-Adds token path v f adds (child j n more) k ks w =
      elim (Bool-cases (same_token j token)) [
        | inl here ↦ rw here (there_here here, back_here here)
        | inr other ↦ rw other (later_child (in_child-Adds token path v f adds more k ks w))
      ]
    where
      there_here :
          same_token j token ≡ true
          → HasChild k (Stored ks w) (child j (f n).0 more)
          → HasChild k (Stored ks w) (child j n more)
            ⊎ (((f n).1 ≡ none) × ((k ∷ ks) ≡ (token ∷ path)) × (w ≡ v))
      there_here here (inl (same, st)) = elim ((adds n ks w).0 st) [
        | inl old ↦ inl (inl (same, old))
        | inr (ok, at, value) ↦ inr (ok, ap₂ ◌∷◌ (sym same ∙ same_token-eq j token here) at, value)
      ]
      there_here here (inr later) = inl (inr later)

      back_here :
          same_token j token ≡ true
          → HasChild k (Stored ks w) (child j n more)
            ⊎ (((f n).1 ≡ none) × ((k ∷ ks) ≡ (token ∷ path)) × (w ≡ v))
          → HasChild k (Stored ks w) (child j (f n).0 more)
      back_here here (inl (inl (same, st))) = inl (same, (adds n ks w).1 (inl st))
      back_here here (inl (inr later)) = inr later
      back_here here (inr (ok, at, value)) = inl (
        same_token-eq j token here ∙ sym (cons_head at),
        (adds n ks w).1 (inr (ok, cons_tail at, value)),
      )

      later_child :
          HasChild k (Stored ks w) (in_child token f more).0 ↔ (
            HasChild k (Stored ks w) more
            ⊎ (((in_child token f more).1 ≡ none) × ((k ∷ ks) ≡ (token ∷ path)) × (w ≡ v)))
          → HasChild k (Stored ks w) (child j n (in_child token f more).0) ↔ (
              HasChild k (Stored ks w) (child j n more)
              ⊎ (((in_child token f more).1 ≡ none) × ((k ∷ ks) ≡ (token ∷ path)) × (w ≡ v)))
      later_child (there, back) = (
        λ h. elim h [
          | inl here ↦ inl (inl here)
          | inr later ↦ elim (there later) [ inl old ↦ inl (inr old) | inr new ↦ inr new ]
        ],
        λ h. elim h [
          | inl old ↦ elim old [ inl here ↦ inl here | inr later ↦ inr (back (inl later)) ]
          | inr new ↦ inr (back (inr new))
        ],
      )

  in_children-Adds :
      (token : Token) (path : List Token) (v : V) (f : Node V → Node V × Option SearchError)
      → Adds path v f
      → Adds (token ∷ path) v (in_children token f)
  unfolding in_children
  in_children-Adds token path v f adds (node item statics named) [] w =
      elim (Bool-cases (is_named token)) [
        | inl y ↦ rw y (inl, λ h. elim h [ inl s ↦ s | inr (ok, at, value) ↦ absurd cc ])
        | inr n ↦ rw n (inl, λ h. elim h [ inl s ↦ s | inr (ok, at, value) ↦ absurd cc ])
      ]
  in_children-Adds token path v f adds (node item statics named) (k ∷ ks) w =
      elim (Bool-cases (is_named token)) [
        | inl y ↦ rw y (
            let (there, back) = in_child-Adds token path v f adds named k ks w in
            (
              λ h. elim h [
                | inl s ↦ inl (inl s)
                | inr s ↦ elim (there s) [ inl old ↦ inl (inr old) | inr new ↦ inr new ]
              ],
              λ h. elim h [
                | inl old ↦ elim old [ inl s ↦ inl s | inr s ↦ inr (back (inl s)) ]
                | inr new ↦ inr (back (inr new))
              ],
            ))
        | inr n ↦ rw n (
            let (there, back) = in_child-Adds token path v f adds statics k ks w in
            (
              λ h. elim h [
                | inl s ↦ elim (there s) [ inl old ↦ inl (inl old) | inr new ↦ inr new ]
                | inr s ↦ inl (inr s)
              ],
              λ h. elim h [
                | inl old ↦ elim old [ inl s ↦ inl (back (inl s)) | inr s ↦ inr s ]
                | inr new ↦ inl (back (inr new))
              ],
            ))
      ]

  -- Add of a route that starts with a slash. If it ends without an error, the item is stored at the
  -- route's tokens, and what else is stored was stored before; if it fails, what is stored is as
  -- before.
  pub add-Stored :
      (token : Token) (rest : List Token) (v : V) (nd : Node V) (ks : List Token) (w : V)
      → Stored ks w (add token rest v nd).0 ↔ (
          Stored ks w nd ⊎ (((add token rest v nd).1 ≡ none) × (ks ≡ path_of token rest) × (w ≡ v)))
  unfolding add path_of
  add-Stored [] [] v nd ks w = set_item-Adds v nd ks w
  add-Stored [] (t ∷ rest) v nd ks w =
      (inl, λ h. elim h [ inl s ↦ s | inr (ok, at, value) ↦ absurd cc ])
  add-Stored (c ∷ token) [] v nd ks w =
      in_children-Adds (c ∷ token) [] v (set_item v) (set_item-Adds v) nd ks w
  add-Stored (c ∷ token) (t ∷ rest) v nd ks w =
      in_children-Adds (c ∷ token) (path_of t rest) v (add t rest v) (add-Stored t rest v) nd ks w
