-- ===== src/Search/Find.antt =====
-- What Search of core/search/tree.go finds: an item exactly if some stored route fits the path.
use mathlib.Core.Path.{ap₂}
use mathlib.Core.Logic.{ite}
use mathlib.Core.List.{List-discrete}
use mathlib.Core.Option.{some-injective}
use fastgozero.Prelude.{
  ℕ, ◌≡◌, refl, ap, sym, ◌∙◌, Bool, true, false, ◌&&◌, List, [], ◌∷◌, ◌⊎◌, inl, inr, Option, none,
  some, Bool-cases, ◌==◌, if◌then◌else◌, arith, ℕ_discrete,
}
use fastgozero.Search.{
  Token, Params, Node, node, Children, no_child, child, match_token, same_token, colon, add_params,
  or_else, with_params, item_of, found, at_end, next, each, search, split_route, slash,
}

-- Some child with token `k` has the property.
abbrev pub HasChild : {V : Type 0} → Token → (Node V → Type 0) → Children V → Type 0
HasChild k P no_child = ⊥
HasChild k P (child j n more) = ((j ≡ k) × P n) ⊎ HasChild k P more

-- The item of the node that the tokens lead to, through children of both kinds.
abbrev pub Stored : {V : Type 0} → List Token → V → Node V → Type 0
Stored [] v (node item statics named) = item ≡ some v
Stored (k ∷ ks) v (node item statics named) =
    HasChild k (Stored ks v) statics ⊎ HasChild k (Stored ks v) named

both : (a b : Bool) → (a && b) ≡ true → (a ≡ true) × (b ≡ true)
both true b h = (refl, h)
both false b h = absurd cc

pub same_token-eq : (j k : Token) → same_token j k ≡ true → j ≡ k
unfolding same_token
same_token-eq [] [] h = refl
same_token-eq [] (d ∷ k) h = absurd cc
same_token-eq (c ∷ j) [] h = absurd cc
same_token-eq (c ∷ j) (d ∷ k) h =
    let (first, others) = both (c == d) (same_token j k) h in
    ap₂ ◌∷◌ (ground (arith, first)) (same_token-eq j k others)

same_token_self : (k : Token) → same_token k k ≡ true
unfolding same_token
same_token_self [] = refl
same_token_self (c ∷ k) = ground (arith, same_token_self k)

same_token-ite :
    {A : Type 0} (k t : Token) (d : Dec (k ≡ t)) (a b : A)
    → (if same_token k t then a else b) ≡ ite d a b
same_token-ite k t (yes e) a b = rw (ap (same_token k) (sym e) ∙ same_token_self k) refl
same_token-ite k t (no ne) a b = elim (Bool-cases (same_token k t)) [
  | inl same ↦ absurd (ne (same_token-eq k t same))
  | inr other ↦ rw other refl
]

==-ite : {A : Type 0} (c d : ℕ) (p : Dec (c ≡ d)) (a b : A) → (if c == d then a else b) ≡ ite p a b
==-ite c d (yes e) a b = ground arith
==-ite c d (no ne) a b = ground arith

-- The parameters that a token of a stored route takes from one of a path: a name takes it, and any
-- other token fits only itself.
unfoldable pub taken : Token → Token → Option Params
taken [] token = ite (List-discrete ℕ_discrete [] token) (some []) none
taken (c ∷ name) token =
    ite (ℕ_discrete c colon) (some ((name, token) ∷ []))
      (ite (List-discrete ℕ_discrete (c ∷ name) token) (some []) none)

-- match finds just these.
pub match_token-taken : (k token : Token) → match_token k token ≡ taken k token
unfolding match_token taken
match_token-taken [] token =
    same_token-ite [] token (List-discrete ℕ_discrete [] token) (some []) none
match_token-taken (c ∷ name) token =
    ==-ite c colon (ℕ_discrete c colon) _ _
    ∙ ap (ite (ℕ_discrete c colon) (some ((name, token) ∷ [])))
        (same_token-ite (c ∷ name) token (List-discrete ℕ_discrete (c ∷ name) token) (some []) none)

unfoldable pub combine : Option Params → Option Params → Option Params
unfolding add_params
combine none r = none
combine (some qs) none = none
combine (some qs) (some ps) = some (add_params qs ps)

-- The parameters that the tokens of a stored route take from those of a path, if they fit: one by one,
-- but for a slash at the end of the path.
unfoldable pub fits : List Token → Token → List Token → Option Params
unfolding taken combine
fits [] [] [] = some []
fits [] [] (t ∷ rest) = none
fits [] (c ∷ token) rest = none
fits (k ∷ []) token [] = combine (taken k token) (some [])
fits (k ∷ j ∷ ks) token [] = none
fits (k ∷ ks) token (t ∷ rest) = combine (taken k token) (fits ks t rest)

-- A stored route that fits the path, with the item and the parameters of a result.
abbrev pub Found : {V : Type 0} → Node V → Token → List Token → V × Params → Type 0
Found nd token rest r = (ks : List Token) × Stored ks r.0 nd × (fits ks token rest ≡ some r.1)

abbrev FoundIn : {V : Type 0} → Children V → Token → List Token → V × Params → Type 0
FoundIn children token rest r =
    (k : Token) × (ks : List Token) × HasChild k (Stored ks r.0) children
    × (fits (k ∷ ks) token rest ≡ some r.1)

or_else-cases :
    {A : Type 0} (o p : Option A) (a : A) → or_else o p ≡ some a → (o ≡ some a) ⊎ (p ≡ some a)
unfolding or_else
or_else-cases none p a h = inr h
or_else-cases (some b) p a h = inl h

with_params-cases :
    {A : Type 0} (m : Option Params) (r : Option (A × Params)) (v : A) (ps : Params)
    → with_params m r ≡ some (v, ps)
    → (qs : Params) × (ps' : Params) × (m ≡ some qs)
      × (r ≡ some (v, ps'))
      × (add_params qs ps' ≡ ps)
unfolding with_params
with_params-cases none r v ps h = absurd cc
with_params-cases (some qs) none v ps h = absurd cc
with_params-cases (some qs) (some (w, ps')) v ps h =
    let same : (w, add_params qs ps') ≡ (v, ps) = some-injective (w, add_params qs ps') (v, ps) h in
    (qs, ps', refl, ap (λ r. some (r.0, ps')) same, ap (λ r. r.1) same)

found-cases :
    {V : Type 0} (item : Option V) (v : V) (ps : Params)
    → found item ≡ some (v, ps)
    → (item ≡ some v) × ([] ≡ ps)
unfolding found
found-cases none v ps h = absurd cc
found-cases (some w) v ps h =
    let same : (w, []) ≡ (v, ps) = some-injective (w, []) (v, ps) h in
    (ap (λ r. some r.0) same, ap (λ r. r.1) same)

skip :
    {V : Type 0} (k : Token) (n : Node V) (more : Children V) (token : Token) (rest : List Token)
    (r : V × Params)
    → FoundIn more token rest r
    → FoundIn (child k n more) token rest r
skip k n more token rest r (j, ks, has, fit) = (j, ks, inr has, fit)

fits-last :
    (k token : Token) (qs : Params)
    → taken k token ≡ some qs
    → fits (k ∷ []) token [] ≡ some (add_params qs [])
unfolding fits
fits-last k token qs h = rw (h, fits, combine) refl

fits_step :
    (k : Token) (ks : List Token) (token t : Token) (rest : List Token) (qs ps : Params)
    → taken k token ≡ some qs
    → fits ks t rest ≡ some ps
    → fits (k ∷ ks) token (t ∷ rest) ≡ some (add_params qs ps)
unfolding fits
fits_step k [] token t rest qs ps h g = rw (h, g, fits, combine) refl
fits_step k (j ∷ ks) token t rest qs ps h g = rw (h, g, fits, combine) refl

item_of-Stored : {V : Type 0} (n : Node V) (v : V) → item_of n ≡ some v → Stored [] v n
unfolding item_of
item_of-Stored (node item statics named) v h = h

at_end-cases :
    {V : Type 0} (item : Option V) (token : Token) (rest : List Token) (v : V) (ps : Params)
    → at_end item token rest ≡ some (v, ps)
    → (item ≡ some v) × (fits [] token rest ≡ some ps)
unfolding at_end fits
at_end-cases item [] [] v ps h = let (ei, ep) = found-cases item v ps h in (ei, ap some ep)
at_end-cases item [] (t ∷ rest) v ps h = absurd cc
at_end-cases item (c ∷ token) [] v ps h = absurd cc
at_end-cases item (c ∷ token) (t ∷ rest) v ps h = absurd cc

mutual
  unfolding next each fits

  next-Found :
      {V : Type 0} (nd : Node V) (token : Token) (rest : List Token) (v : V) (ps : Params)
      → next nd token rest ≡ some (v, ps)
      → Found nd token rest (v, ps)
  next-Found (node item statics named) token rest v ps h =
      elim (or_else-cases (at_end item token rest) _ (v, ps) h) [
        | inl here ↦ let (ei, fit) = at_end-cases item token rest v ps here in ([], ei, fit)
        | inr below ↦ elim (or_else-cases (each statics token rest) _ (v, ps) below) [
          | inl left ↦
              let (k, ks, has, fit) = each-FoundIn statics token rest v ps left in
              (k ∷ ks, inl has, fit)
          | inr right ↦
              let (k, ks, has, fit) = each-FoundIn named token rest v ps right in
              (k ∷ ks, inr has, fit)
        ]
      ]

  each-FoundIn :
      {V : Type 0} (children : Children V) (token : Token) (rest : List Token) (v : V) (ps : Params)
      → each children token rest ≡ some (v, ps)
      → FoundIn children token rest (v, ps)
  each-FoundIn no_child token rest v ps h = absurd cc
  each-FoundIn (child k n more) token [] v ps h =
      elim (or_else-cases (with_params (match_token k token) (found (item_of n))) _ (v, ps) h) [
        | inl here ↦
            (let (qs, ps', em, er, ep) =
                with_params-cases (match_token k token) (found (item_of n)) v ps here in
              let (ei, en) = found-cases (item_of n) v ps' er in
              (
                k,
                [],
                inl (refl, item_of-Stored n v ei),
                fits-last k token qs (sym (match_token-taken k token) ∙ em)
                    ∙ ap some (ap (add_params qs) en ∙ ep),
              ))
        | inr later ↦ skip k n more token [] (v, ps) (each-FoundIn more token [] v ps later)
      ]
  each-FoundIn (child k n more) token (t ∷ rest) v ps h =
      elim (or_else-cases (with_params (match_token k token) (next n t rest)) _ (v, ps) h) [
        | inl here ↦
            (let (qs, ps', em, er, ep) =
                with_params-cases (match_token k token) (next n t rest) v ps here in
              let (ks, st, fit) = next-Found n t rest v ps' er in
              (
                k,
                ks,
                inl (refl, st),
                fits_step k ks token t rest qs ps' (sym (match_token-taken k token) ∙ em) fit
                    ∙ ap some ep,
              ))
        | inr later ↦
            skip k n more token (t ∷ rest) (v, ps) (each-FoundIn more token (t ∷ rest) v ps later)
      ]

-- What Search finds, it finds rightly: a path that starts with a slash has the item of a stored route
-- that fits it, and the parameters are those that the route's names take from the path.
pub search-Found :
    {V : Type 0} (route : List ℕ) (root : Node V) (v : V) (ps : Params)
    → search (slash ∷ route) root ≡ some (v, ps)
    → Found root (split_route route).0 (split_route route).1 (v, ps)
unfolding search
search-Found route root v ps h = next-Found root (split_route route).0 (split_route route).1 v ps h
