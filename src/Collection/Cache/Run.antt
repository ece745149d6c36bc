-- ===== src/Collection/Cache/Run.antt =====
-- A limited Cache (core/collection/cache.go) after any calls: what its list says of the uses of keys.
use fastgozero.Prelude.{ℕ, ◌<◌, ◌≡◌, refl, List, [], ◌∷◌, true, ltb, arith, if◌then◌else◌}
use fastgozero.Prelude.Maps.{lookup}
use fastgozero.Collection.Cache.{Cache, new_cache, set_with_expire, do_get, del}
use fastgozero.Collection.Cache.Valid.{has_key, is_some, in_none}
use fastgozero.Collection.Cache.Evict.{IsTracked, Stores, set_with_expire-Stores}
use fastgozero.Collection.Cache.Keep.{do_get_lem, del_lem}

-- A call of the cache.
pub data CacheCall (K V : Type 0) : Type 0 where
  set_call : K → V → ℕ → CacheCall K V
  get_call : K → CacheCall K V
  del_call : K → CacheCall K V

module _ {K V : Type 0} (dec : Discrete K) where
  unfoldable pub run : List (CacheCall K V) → Cache K V → Cache K V
  run [] c = c
  run (set_call k v expiry ∷ calls) c = run calls (set_with_expire dec k v expiry c)
  run (get_call k ∷ calls) c = run calls (do_get dec k c).0
  run (del_call k ∷ calls) c = run calls (del dec k c)

  -- The keys that the calls used, after those of `h`, the last use first: a Set is a use, and so is a
  -- Get that finds a value.
  unfoldable pub uses_of : List (CacheCall K V) → Cache K V → List K → List K
  uses_of [] c h = h
  uses_of (set_call k v expiry ∷ calls) c h =
      uses_of calls (set_with_expire dec k v expiry c) (k ∷ h)
  uses_of (get_call k ∷ calls) c h =
      uses_of calls (do_get dec k c).0 (if is_some (lookup dec k c.entries) then k ∷ h else h)
  uses_of (del_call k ∷ calls) c h = uses_of calls (del dec k c) h

  module _ (n : ℕ) (pos : 0 < n) where
    new_cache-IsTracked : IsTracked {V = V} dec n [] (new_cache n)
    unfolding new_cache has_key is_some lookup
    new_cache-IsTracked =
        let limited : ltb 0 n ≡ true = ground (arith, pos) in
        record {
          valid = record {
            lru = record { limit = n; evicts = []; elements = [] };
            limited = rw limited refl;
            limit_is = refl;
            few = omega arith;
            agrees = record { covers = λ j. refl; no_dup = tt; distinct = tt; same_length = refl };
            indexed = λ j. refl;
          };
          order = in_none;
        }

    run-IsTracked :
        (calls : List (CacheCall K V)) (c : Cache K V) (h : List K)
        → IsTracked dec n h c
        → IsTracked dec n (uses_of calls c h) (run calls c)
    unfolding run uses_of
    run-IsTracked [] c h t = t
    run-IsTracked (set_call k v expiry ∷ calls) c h t =
        let s = set_with_expire-Stores dec n pos k v expiry c t.valid h t.order in
        run-IsTracked calls _ (k ∷ h) (record { valid = s.still_valid; order = s.in_order })
    run-IsTracked (get_call k ∷ calls) c h t = run-IsTracked calls _ _ (do_get_lem dec n k h c t).0
    run-IsTracked (del_call k ∷ calls) c h t = run-IsTracked calls _ _ (del_lem dec n k h c t).0

    -- SetWithExpire on a Cache made with limit n > 0, after any calls of SetWithExpire, Get and Del: the
    -- list of the Cache is in the order of the last uses, where a Set is a use and a Get that finds a
    -- value, before the call, and with this use as the last one after it; the Cache has no more than n
    -- entries; it holds the value; and each other key has what it had, unless it was evicted: then
    -- the Cache was full, the key set is new, and the key evicted is the last of the list, that used
    -- longest ago.
    pub set_with_expire_lem :
        (calls : List (CacheCall K V)) (k : K) (v : V) (expiry : ℕ)
        → let c = run calls (new_cache n) in
          let h = uses_of calls (new_cache n) [] in
          (t : IsTracked dec n h c) × Stores dec n pos k v expiry c t.valid h t.order
            (set_with_expire dec k v expiry c)
    set_with_expire_lem calls k v expiry =
        let t = run-IsTracked calls (new_cache n) [] new_cache-IsTracked in
        (
          t,
          set_with_expire-Stores dec n pos k v expiry (run calls (new_cache n)) t.valid
              (uses_of calls (new_cache n) []) t.order,
        )
