-- ===== src/Collection/Cache/Tests.antt =====
-- Runs of core/collection/cache.go.
use fastgozero.Prelude.{ℕ, List, ◌≡◌, refl, [], ◌∷◌, some, arith, ℕ_discrete}
use fastgozero.Prelude.Maps.{lookup, insert, delete}
use fastgozero.Collection.Cache.{
  Cache, set_timer, move_timer, remove_timer, set_with_expire, do_get, new_cache,
}
use fastgozero.Collection.Cache.Valid.{is_some}
use fastgozero.Collection.Cache.Evict.{IsTracked, Stores}
use fastgozero.Collection.Cache.Run.{
  CacheCall, set_call, get_call, run, uses_of, set_with_expire_lem,
}

-- A cache of two, full, in which 1 was used last.
abbrev full : Cache ℕ ℕ
full = record {
  entries = (1, 10) ∷ (2, 20) ∷ [];
  lru_cache = some (record { limit = 2; evicts = 1 ∷ 2 ∷ []; elements = (1, 1) ∷ (2, 2) ∷ [] });
  timer_calls = [];
}

-- A third key takes the place of 2; an older value is moved on the timing wheel.
set_with_expire-full :
    set_with_expire ℕ_discrete 3 30 5 (set_with_expire ℕ_discrete 1 11 5 full) ≡ record {
      entries = (1, 11) ∷ (3, 30) ∷ [];
      lru_cache = some (record { limit = 2; evicts = 3 ∷ 1 ∷ []; elements = (1, 1) ∷ (3, 3) ∷ [] });
      timer_calls = move_timer 1 5 ∷ remove_timer 2 ∷ set_timer 3 30 5 ∷ [];
    }
unfolding set_with_expire insert delete lookup ℕ_discrete
set_with_expire-full = refl

-- 2 is set, then 1, then 2 is read: 3 takes the place of 1.
abbrev cache_calls : List (CacheCall ℕ ℕ)
cache_calls = set_call 2 20 5 ∷ set_call 1 10 5 ∷ get_call 2 ∷ get_call 4 ∷ []

run-uses : uses_of ℕ_discrete cache_calls (new_cache 2) [] ≡ 2 ∷ 1 ∷ 2 ∷ []
unfolding run uses_of new_cache set_with_expire do_get insert lookup is_some ℕ_discrete
run-uses = refl

run-entries :
    (set_with_expire ℕ_discrete 3 30 5 (run ℕ_discrete cache_calls (new_cache 2))).entries
    ≡ (2, 20) ∷ (3, 30) ∷ []
unfolding run new_cache set_with_expire do_get insert delete lookup ℕ_discrete
run-entries = refl

set_with_expire_lem_example :
    let c = run ℕ_discrete cache_calls (new_cache 2) in
    let h = uses_of ℕ_discrete cache_calls (new_cache 2) [] in
    (t : IsTracked ℕ_discrete 2 h c) × Stores ℕ_discrete 2
      (omega arith)
      3
      30
      5
      c
      t.valid
      h
      t.order
      (set_with_expire ℕ_discrete 3 30 5 c)
set_with_expire_lem_example = set_with_expire_lem ℕ_discrete 2 (omega arith) cache_calls 3 30 5
