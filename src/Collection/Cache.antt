-- ===== src/Collection/Cache.antt =====
-- core/collection/cache.go: Cache with its keyLru. The lock makes each method one step up to its calls
-- of the timing wheel, which are listed in order. An element of the list `evicts` is named by the
-- key it holds, in `elements` too. The expiry that AroundDuration draws is an argument. Counters of hits and misses are left out, and so is Take, which adds a SingleFlight.
pub mod Valid
pub mod Indexed
pub mod Evict
pub mod Keep
pub mod Run
mod Tests
use fastgozero.Prelude.{
  ℕ, zero, suc, ◌+◌, ◌≡◌, Bool, true, false, List, [], ◌∷◌, ◌++◌, Option, none, some, ltb,
  if◌then◌else◌, length,
}
use fastgozero.Prelude.Maps.{lookup, insert, delete}
use mathlib.Core.Logic.{ite}

-- A call of the timing wheel.
pub data TimerCall (K V : Type 0) : Type 0 where
  set_timer : K → V → ℕ → TimerCall K V
  move_timer : K → ℕ → TimerCall K V
  remove_timer : K → TimerCall K V

-- keyLru: the list, its front first, and the map from a key to its element of the list.
pub record KeyLru (K : Type 0) : Type 0 where
  pub limit : ℕ
  pub evicts : List K
  pub elements : List (K × K)

-- Cache; without a limit it has an emptyLru.
pub record Cache (K V : Type 0) : Type 0 where
  pub entries : List (K × V)
  pub lru_cache : Option (KeyLru K)
  pub timer_calls : List (TimerCall K V)

-- NewCache, with a limit (WithLimit) or none.
unfoldable pub new_cache : {K V : Type 0} → ℕ → Cache K V
new_cache limit = record {
  entries = [];
  lru_cache =
      if ltb 0 limit then some (record { limit = limit; evicts = []; elements = [] }) else none;
  timer_calls = [];
}

-- The element at the back of a list.
unfoldable pub back : {K : Type 0} → List K → Option K
back [] = none
back (k ∷ []) = some k
back (k ∷ j ∷ l) = back (j ∷ l)

module _ {K : Type 0} (dec : Discrete K) where
  -- list.Remove of an element.
  unfoldable pub remove_key : K → List K → List K
  remove_key k [] = []
  remove_key k (j ∷ l) = ite (dec j k) l (j ∷ remove_key k l)

module _ {K V : Type 0} (dec : Discrete K) where
  -- onEvict
  unfoldable pub on_evict : K → Cache K V → Cache K V
  on_evict k c = record c {
    entries = delete dec k c.entries;
    timer_calls = c.timer_calls ++ (remove_timer k ∷ []);
  }

  -- removeElement
  unfoldable pub remove_element : KeyLru K → K → Cache K V → Cache K V
  unfolding remove_key on_evict
  remove_element lru e c =
      let key = e in
      on_evict key (record c {
        lru_cache = some (record lru {
          evicts = remove_key dec e lru.evicts;
          elements = delete dec key lru.elements;
        });
      })

  -- removeOldest
  unfoldable pub remove_oldest : KeyLru K → Cache K V → Cache K V
  unfolding remove_element back
  remove_oldest lru c = elim (back lru.evicts) [
    | none ↦ record c { lru_cache = some lru }
    | some e ↦ remove_element lru e c
  ]

  -- keyLru.add, and emptyLru.add.
  unfoldable pub lru_add : K → Cache K V → Cache K V
  unfolding remove_oldest
  lru_add k c = elim c.lru_cache [
    | none ↦ c
    | some lru ↦ elim (lookup dec k lru.elements) [
      | some e ↦ record c {
        lru_cache = some (record lru { evicts = e ∷ remove_key dec e lru.evicts });
      }
      | none ↦
          (let pushed = record lru {
            evicts = k ∷ lru.evicts;
            elements = insert dec k k lru.elements;
          } in
            if ltb lru.limit (length pushed.evicts)
            then remove_oldest pushed c
            else record c { lru_cache = some pushed })
    ]
  ]

  -- keyLru.remove, and emptyLru.remove.
  unfoldable pub lru_remove : K → Cache K V → Cache K V
  unfolding remove_element
  lru_remove k c = elim c.lru_cache [
    | none ↦ c
    | some lru ↦ elim (lookup dec k lru.elements) [ none ↦ c | some e ↦ remove_element lru e c ]
  ]

  -- Del
  unfoldable pub del : K → Cache K V → Cache K V
  unfolding lru_remove
  del k c =
      let c' = lru_remove k (record c { entries = delete dec k c.entries }) in
      record c' { timer_calls = c'.timer_calls ++ (remove_timer k ∷ []) }

  -- doGet, which Get returns.
  unfoldable pub do_get : K → Cache K V → Cache K V × Option V
  unfolding lru_add
  do_get k c = elim (lookup dec k c.entries) [ none ↦ (c, none) | some v ↦ (lru_add k c, some v) ]

  -- The call of the timing wheel, by what was there before.
  unfoldable pub expiry_call : K → V → ℕ → Option V → TimerCall K V
  expiry_call k v expiry none = set_timer k v expiry
  expiry_call k v expiry (some w) = move_timer k expiry

  -- SetWithExpire
  unfoldable pub set_with_expire : K → V → ℕ → Cache K V → Cache K V
  unfolding lru_add expiry_call
  set_with_expire k v expiry c =
      let c' = lru_add k (record c { entries = insert dec k v c.entries }) in
      record c' {
        timer_calls = c'.timer_calls ++ (expiry_call k v expiry (lookup dec k c.entries) ∷ []);
      }
