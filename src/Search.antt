-- ===== src/Search.antt =====
-- core/search/tree.go: Tree, which holds an item for each of a set of routes and finds one for a path.
-- A route is a list of bytes, cut at its slashes into tokens. Go visits the children of a node in no
-- fixed order; here it is the order of their insertion. A child that is nil (errInvalidState) has no
-- counterpart: Add stores none.
pub mod Find
pub mod Complete
pub mod Added
pub mod Refine
mod Tests
use fastgozero.Prelude.{
  ℕ, zero, suc, ◌+◌, ◌≡◌, Bool, true, false, ◌&&◌, List, [], ◌∷◌, Option, none, some, ◌==◌,
  if◌then◌else◌, drop,
}

abbrev pub Token : Type 0
Token = List ℕ

abbrev pub colon : ℕ
colon = 58

abbrev pub slash : ℕ
slash = 47

-- The parameters of a Result, without double keys.
abbrev pub Params : Type 0
Params = List (Token × Token)

-- node: its item, and its children without and with a name, by token.
mutual
  pub data Node (V : Type 0) : Type 0 where
    node : Option V → Children V → Children V → Node V

  pub data Children (V : Type 0) : Type 0 where
    no_child : Children V
    child : Token → Node V → Children V → Children V

pub data SearchError : Type 0 where
  dup_item : SearchError
  dup_slash : SearchError
  empty_item : SearchError
  not_from_root : SearchError

unfoldable pub same_token : Token → Token → Bool
same_token [] [] = true
same_token [] (d ∷ k) = false
same_token (c ∷ j) [] = false
same_token (c ∷ j) (d ∷ k) = c == d && same_token j k

-- The test of match and getChildren for a colon at the start.
unfoldable pub is_named : Token → Bool
is_named [] = false
is_named (c ∷ k) = c == colon

-- match: `none` where it finds nothing, else the parameter, if the pattern is named.
unfoldable pub match_token : Token → Token → Option Params
unfolding is_named same_token
match_token pat token =
    if is_named pat
    then some ((drop 1 pat, token) ∷ [])
    else (if same_token pat token then some [] else none)

-- addParam: `Params[k] = v`
unfoldable pub add_param : Token → Token → Params → Params
unfolding same_token
add_param k v [] = (k, v) ∷ []
add_param k v ((j, w) ∷ ps) = if same_token j k then (k, v) ∷ ps else (j, w) ∷ add_param k v ps

unfoldable pub add_params : Params → Params → Params
unfolding add_param
add_params [] ps = ps
add_params ((k, v) ∷ qs) ps = add_param k v (add_params qs ps)

-- The tokens of a route after its first slash: the first, and the others.
unfoldable pub split_route : List ℕ → Token × List Token
split_route [] = ([], [])
split_route (c ∷ route) =
    let (token, rest) = split_route route in
    if c == slash then ([], token ∷ rest) else (c ∷ token, rest)

-- The first result that there is.
unfoldable pub or_else : {A : Type 0} → Option A → Option A → Option A
or_else none o = o
or_else (some a) o = some a

-- A result, with the parameter of the match on the way to it.
unfoldable pub with_params :
    {A : Type 0} → Option Params → Option (A × Params) → Option (A × Params)
unfolding add_params
with_params none r = none
with_params (some qs) none = none
with_params (some qs) (some (v, ps)) = some (v, add_params qs ps)

module _ {V : Type 0} where
  unfoldable pub new_node : Option V → Node V
  new_node item = node item no_child no_child

  unfoldable pub item_of : Node V → Option V
  item_of (node item statics named) = item

  unfoldable pub found : Option V → Option (V × Params)
  found none = none
  found (some v) = some (v, [])

  -- The item of a node, if the route ends at it.
  unfoldable pub at_end : Option V → Token → List Token → Option (V × Params)
  unfolding found
  at_end item [] [] = found item
  at_end item (c ∷ token) rest = none
  at_end item [] (t ∷ rest) = none

unfoldable mutual
  unfolding match_token item_of or_else with_params found at_end

  -- next
  pub next : {V : Type 0} → Node V → Token → List Token → Option (V × Params)
  next (node item statics named) token rest =
      or_else (at_end item token rest) (or_else (each statics token rest) (each named token rest))

  -- forEach over one of the maps, with the function that next hands to it.
  pub each : {V : Type 0} → Children V → Token → List Token → Option (V × Params)
  each no_child token rest = none
  each (child k n more) token [] =
      or_else (with_params (match_token k token) (found (item_of n))) (each more token [])
  each (child k n more) token (t ∷ rest) =
      or_else (with_params (match_token k token) (next n t rest)) (each more token (t ∷ rest))

module _ {V : Type 0} where
  -- Setting the item of a node, where there is none.
  unfoldable pub set_item : V → Node V → Node V × Option SearchError
  set_item v (node (some w) statics named) = (node (some w) statics named, some dup_item)
  set_item v (node none statics named) = (node (some v) statics named, none)

  -- A change of the child with a token, which is made if it is missing. (It stays in the map if the
  -- change ends with an error.)
  unfoldable pub in_child :
      Token → (Node V → Node V × Option SearchError) → Children V → Children V × Option SearchError
  unfolding same_token new_node
  in_child token f no_child = let (n, err) = f (new_node none) in (child token n no_child, err)
  in_child token f (child k n more) =
      let rest = in_child token f more in
      if same_token k token
      then (let (n', err) = f n in (child k n' more, err))
      else (child k n rest.0, rest.1)

  unfoldable pub in_children :
      Token → (Node V → Node V × Option SearchError) → Node V → Node V × Option SearchError
  unfolding is_named in_child
  in_children token f (node item statics named) =
      if is_named token
      then (let (named', err) = in_child token f named in (node item statics named', err))
      else (let (statics', err) = in_child token f statics in (node item statics' named, err))

  -- add, over the tokens of the route.
  unfoldable pub add : Token → List Token → V → Node V → Node V × Option SearchError
  unfolding set_item in_children
  add [] [] v nd = set_item v nd
  add [] (t ∷ rest) v nd = (nd, some dup_slash)
  add (c ∷ token) [] v nd = in_children (c ∷ token) (set_item v) nd
  add (c ∷ token) (t ∷ rest) v nd = in_children (c ∷ token) (add t rest v) nd

  -- Tree.Add; `none` is a nil item. The errors name the route too.
  unfoldable pub add_route : List ℕ → Option V → Node V → Node V × Option SearchError
  unfolding add split_route
  add_route [] item root = (root, some not_from_root)
  add_route (c ∷ route) item root =
      if c == slash
      then (elim item [
        | none ↦ (root, some empty_item)
        | some v ↦ let (token, rest) = split_route route in add token rest v root
      ])
      else (root, some not_from_root)

  -- Tree.Search
  unfoldable pub search : List ℕ → Node V → Option (V × Params)
  unfolding next split_route
  search [] root = none
  search (c ∷ route) root =
      let (token, rest) = split_route route in if c == slash then next root token rest else none
