-- ===== src/Syncx/Pool.antt =====
-- core/syncx/pool.go: Pool. The lock makes each method one step; a Get that would wait is `none`, and
-- runs again after a signal. `create` is the source of items, `destroyed` the log of `destroy`.
use fastgozero.Prelude.{
  ℕ, suc, ◌+◌, ◌-◌, ◌≤◌, ◌<◌, ◌≡◌, refl, Bool, false, ◌&&◌, List, [], ◌∷◌, Option, none, some, inl,
  inr, ◌⊎◌, arith, ltb, leb, if◌then◌else◌, Bool-cases, length,
}

-- node
pub record Node (X : Type 0) : Type 0 where
  pub item : X
  pub last_used : ℕ

-- Pool: the nodes from `head` on.
pub record Pool (X : Type 0) : Type 0 where
  pub limit : ℕ
  pub created : ℕ
  pub max_age : ℕ
  pub nodes : List (Node X)
  pub destroyed : List X

-- What Get gives: an item of the pool or a new one, or it waits.
pub data Got (X : Type 0) : Type 0 where
  reused : X → Got X
  made : Got X
  waits : Got X

module _ {X : Type 0} where
  -- NewPool, with the age of WithMaxAge or 0; `none` is the panic.
  unfoldable pub new_pool : ℕ → ℕ → Option (Pool X)
  new_pool n max_age =
      if leb n 0
      then none
      else some (record { limit = n; created = 0; max_age = max_age; nodes = []; destroyed = [] })

  -- The loop of Get over the nodes `l`, all at time `now`, with the count `created` so far and what was
  -- destroyed so far.
  unfoldable pub get_loop : ℕ → Pool X → List (Node X) → ℕ → List X → Pool X × Got X
  get_loop now p [] created destroyed =
      if ltb created p.limit
      then (record p { created = created + 1; nodes = []; destroyed = destroyed }, made)
      else (record p { created = created; nodes = []; destroyed = destroyed }, waits)
  get_loop now p (head ∷ l) created destroyed =
      let next = get_loop now p l (created - 1) (head.item ∷ destroyed) in
      if ltb 0 p.max_age && ltb (head.last_used + p.max_age) now
      then next
      else (record p { created = created; nodes = l; destroyed = destroyed }, reused head.item)

  -- Get
  unfoldable pub get_item : ℕ → Pool X → Pool X × Got X
  get_item now p = get_loop now p p.nodes p.created p.destroyed

  -- Put
  unfoldable pub put_item : ℕ → X → Pool X → Pool X
  put_item now x p = record p { nodes = record { item = x; last_used = now } ∷ p.nodes }

  -- `out` items are in use: the others that were created and not destroyed are in the pool.
  pub record IsValid (out : ℕ) (p : Pool X) : Type 0 where
    pub some_limit : 0 < p.limit
    pub counted : p.created ≡ out + length p.nodes
    pub limited : p.created ≤ p.limit

  -- The node is too old at `now`.
  abbrev pub expired : ℕ → Pool X → Node X → Bool
  expired now p head = ltb 0 p.max_age && ltb (head.last_used + p.max_age) now

  -- Some node of the list has the item and is not too old.
  abbrev pub HasFresh : ℕ → Pool X → X → List (Node X) → Type 0
  HasFresh now p x [] = ⊥
  HasFresh now p x (head ∷ l) =
      ((head.item ≡ x) × (expired now p head ≡ false)) ⊎ HasFresh now p x l

  -- The pool is valid with one more item in use: an old one that is not too old, or a new one; or Get
  -- waits, the pool is empty, and as many items are in use as the limit allows.
  abbrev pub Gives : ℕ → ℕ → Pool X → List (Node X) → Pool X → Got X → Type 0
  Gives now out p l p' (reused x) = IsValid (out + 1) p' × HasFresh now p x l
  Gives now out p l p' made = IsValid (out + 1) p' × (p'.nodes ≡ [])
  Gives now out p l p' waits = IsValid out p' × (p'.nodes ≡ []) × (out ≡ p.limit)

  Gives-later :
      (now out : ℕ) (p : Pool X) (head : Node X) (l : List (Node X)) (p' : Pool X) (g : Got X)
      → Gives now out p l p' g
      → Gives now out p (head ∷ l) p' g
  Gives-later now out p head l p' (reused x) h = (h.0, inr h.1)
  Gives-later now out p head l p' made h = h
  Gives-later now out p head l p' waits h = h

  get_loop-Gives :
      (now out : ℕ) (p : Pool X) (l : List (Node X)) (created : ℕ) (destroyed : List X)
      → 0 < p.limit
      → created ≡ out + length l
      → created ≤ p.limit
      → Gives now out p l
          (get_loop now p l created destroyed).0
          (get_loop now p l created destroyed).1
  unfolding get_loop
  get_loop-Gives now out p [] created destroyed pos counted limited =
      elim (Bool-cases (ltb created p.limit)) [
        | inl room ↦ rw room (
          record {
            some_limit = pos;
            counted = omega (arith, counted);
            limited = ground (arith, room);
          },
          refl,
        )
        | inr full ↦ rw full (
          record { some_limit = pos; counted = omega (arith, counted); limited = limited },
          refl,
          ground (arith, full, counted, limited),
        )
      ]
  get_loop-Gives now out p (head ∷ l) created destroyed pos counted limited =
      elim (Bool-cases (expired now p head)) [
        | inl old ↦ rw old (
            Gives-later now out p head l _ _ (
              get_loop-Gives now out p l (created - 1) (head.item ∷ destroyed) pos
                (omega (arith, counted)) (omega (arith, limited))))
        | inr young ↦ rw young (
          record { some_limit = pos; counted = omega (arith, counted); limited = limited },
          inl (refl, young),
        )
      ]

  -- Get on a pool with `out` items in use: it keeps the pool valid, with one more item in use, which is
  -- new or not too old; or it waits, which it does only if as many items are in use as the limit
  -- allows.
  pub get_item-Gives :
      (now out : ℕ) (p : Pool X)
      → IsValid out p
      → Gives now out p p.nodes (get_item now p).0 (get_item now p).1
  unfolding get_item
  get_item-Gives now out p v =
      get_loop-Gives now out p p.nodes p.created p.destroyed v.some_limit v.counted v.limited

  -- Put of an item in use keeps the pool valid, and a Get at the same time gives that item.
  pub get_item-put_item :
      (now out : ℕ) (x : X) (p : Pool X)
      → IsValid (suc out) p
      → IsValid out (put_item now x p)
        × ((get_item now (put_item now x p)).1 ≡ reused x)
        × ((get_item now (put_item now x p)).0 ≡ p)
  unfolding put_item get_item get_loop
  get_item-put_item now out x p v = (
    record { some_limit = v.some_limit; counted = omega (arith, v.counted); limited = v.limited },
    rw young refl,
    rw young refl,
  )
    where
      young : (ltb 0 p.max_age && ltb (now + p.max_age) now) ≡ false
      young = ground arith
