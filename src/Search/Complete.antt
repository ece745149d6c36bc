-- ===== src/Search/Complete.antt =====
-- Search of core/search/tree.go finds something where a stored route fits the path.
use fastgozero.Prelude.{ℕ, ◌≡◌, refl, ap, ◌∙◌, List, [], ◌∷◌, inl, inr, Option, none, some}
use fastgozero.Search.{
  Token, Params, Node, node, Children, no_child, child, match_token, add_params, or_else,
  with_params, item_of, found, at_end, next, each, search, split_route, slash,
}
use fastgozero.Search.Find.{HasChild, Stored, fits, combine, taken, match_token-taken}

abbrev IsSome : {A : Type 0} → Option A → Type 0
IsSome {A} o = (a : A) × (o ≡ some a)

or_else_left : {A : Type 0} (o p : Option A) → IsSome o → IsSome (or_else o p)
unfolding or_else
or_else_left none p (a, e) = absurd cc
or_else_left (some a) p h = (a, refl)

or_else_right : {A : Type 0} (o p : Option A) → IsSome p → IsSome (or_else o p)
unfolding or_else
or_else_right none p h = h
or_else_right (some a) p h = (a, refl)

with_params-IsSome :
    {A : Type 0} (m : Option Params) (r : Option (A × Params)) (qs : Params)
    → m ≡ some qs
    → IsSome r
    → IsSome (with_params m r)
unfolding with_params
with_params-IsSome m r qs h (a, e) = rw (h, e, with_params) ((a.0, add_params qs a.1), refl)

combine-IsSome : (m r : Option Params) (ps : Params) → combine m r ≡ some ps → IsSome m × IsSome r
unfolding combine
combine-IsSome none r ps h = absurd cc
combine-IsSome (some qs) none ps h = absurd cc
combine-IsSome (some qs) (some rs) ps h = ((qs, refl), (rs, refl))

fits-last_inv :
    (k : Token) (ks : List Token) (token : Token) (ps : Params)
    → fits (k ∷ ks) token [] ≡ some ps
    → (ks ≡ []) × IsSome (taken k token)
unfolding fits
fits-last_inv k [] token ps h = (refl, (combine-IsSome (taken k token) (some []) ps h).0)
fits-last_inv k (j ∷ ks) token ps h = absurd cc

fits_inv :
    (k : Token) (ks : List Token) (token t : Token) (rest : List Token) (ps : Params)
    → fits (k ∷ ks) token (t ∷ rest) ≡ some ps
    → IsSome (taken k token) × IsSome (fits ks t rest)
unfolding fits
fits_inv k [] token t rest ps h = combine-IsSome (taken k token) (fits [] t rest) ps h
fits_inv k (j ∷ ks) token t rest ps h = combine-IsSome (taken k token) (fits (j ∷ ks) t rest) ps h

found-IsSome :
    {V : Type 0} (n : Node V) (ks : List Token) (v : V)
    → ks ≡ []
    → Stored ks v n
    → IsSome (found (item_of n))
unfolding found item_of
found-IsSome (node item statics named) [] v e st = rw (st, found) ((v, []), refl)
found-IsSome n (k ∷ ks) v e st = absurd cc

at_end-IsSome :
    {V : Type 0} (item : Option V) (token : Token) (rest : List Token) (v : V) (ps : Params)
    → item ≡ some v
    → fits [] token rest ≡ some ps
    → IsSome (at_end item token rest)
unfolding at_end found fits
at_end-IsSome item [] [] v ps st fit = rw (st, found) ((v, []), refl)
at_end-IsSome item [] (t ∷ rest) v ps st fit = absurd cc
at_end-IsSome item (c ∷ token) [] v ps st fit = absurd cc
at_end-IsSome item (c ∷ token) (t ∷ rest) v ps st fit = absurd cc

mutual
  unfolding next each

  next-IsSome :
      {V : Type 0} (nd : Node V) (ks : List Token) (token : Token) (rest : List Token) (v : V)
      (ps : Params)
      → Stored ks v nd
      → fits ks token rest ≡ some ps
      → IsSome (next nd token rest)
  next-IsSome (node item statics named) [] token rest v ps st fit =
      or_else_left (at_end item token rest) _ (at_end-IsSome item token rest v ps st fit)
  next-IsSome (node item statics named) (k ∷ ks) token rest v ps (inl has) fit =
      or_else_right (at_end item token rest) _ (
        or_else_left (each statics token rest) _ (each-IsSome statics k ks token rest v ps has fit))
  next-IsSome (node item statics named) (k ∷ ks) token rest v ps (inr has) fit =
      or_else_right (at_end item token rest) _
        (or_else_right (each statics token rest) _ (each-IsSome named k ks token rest v ps has fit))

  each-IsSome :
      {V : Type 0} (children : Children V) (k : Token) (ks : List Token) (token : Token)
      (rest : List Token) (v : V) (ps : Params)
      → HasChild k (Stored ks v) children
      → fits (k ∷ ks) token rest ≡ some ps
      → IsSome (each children token rest)
  each-IsSome no_child k ks token rest v ps has fit = elim has [ ]
  each-IsSome (child j n more) k ks token [] v ps (inr has) fit =
      or_else_right (with_params (match_token j token) (found (item_of n))) _
        (each-IsSome more k ks token [] v ps has fit)
  each-IsSome (child j n more) k ks token (t ∷ rest) v ps (inr has) fit =
      or_else_right (with_params (match_token j token) (next n t rest)) _
        (each-IsSome more k ks token (t ∷ rest) v ps has fit)
  each-IsSome (child j n more) k ks token [] v ps (inl (same, st)) fit =
      let (empty, (qs, em)) = fits-last_inv k ks token ps fit in
      or_else_left (with_params (match_token j token) (found (item_of n))) _ (
        with_params-IsSome (match_token j token) (found (item_of n)) qs
          (ap (λ i. match_token i token) same ∙ match_token-taken k token ∙ em)
          (found-IsSome n ks v empty st))
  each-IsSome (child j n more) k ks token (t ∷ rest) v ps (inl (same, st)) fit =
      let ((qs, em), (ps', ef)) = fits_inv k ks token t rest ps fit in
      or_else_left (with_params (match_token j token) (next n t rest)) _ (
        with_params-IsSome (match_token j token) (next n t rest) qs
          (ap (λ i. match_token i token) same ∙ match_token-taken k token ∙ em)
          (next-IsSome n ks t rest v ps' st ef))

-- Search finds an item for every path that starts with a slash and that some stored route fits.
pub search_complete :
    {V : Type 0} (route : List ℕ) (root : Node V) (ks : List Token) (v : V) (ps : Params)
    → Stored ks v root
    → fits ks (split_route route).0 (split_route route).1 ≡ some ps
    → (r : V × Params) × (search (slash ∷ route) root ≡ some r)
unfolding search
search_complete route root ks v ps st fit =
    next-IsSome root ks (split_route route).0 (split_route route).1 v ps st fit
