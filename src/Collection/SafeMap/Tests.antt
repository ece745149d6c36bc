-- ===== src/Collection/SafeMap/Tests.antt =====
-- Runs of core/collection/safemap.go.
use mathlib.Core.Logic.{ite}
use fastgozero.Prelude.{ℕ, ◌≡◌, refl, List, [], ◌∷◌, none, some, arith, ℕ_discrete, ltb}
use fastgozero.Prelude.Maps.{lookup, insert, delete}
use fastgozero.Collection.SafeMap.{
  SafeMap, range_map, range, copy_into, del_entry, retire_old, retire_new, del, get, put,
}
use fastgozero.Collection.SafeMap.Lookup.{IsValid, get-put, get-del}

-- One deletion short of moving its entries.
abbrev worn : SafeMap ℕ ℕ
worn = record {
  deletion_old = 9999;
  deletion_new = 0;
  dirty_old = (1, 10) ∷ (2, 20) ∷ [];
  dirty_new = (3, 30) ∷ [];
}

worn-IsValid : IsValid ℕ_discrete worn
unfolding lookup ℕ_discrete
worn-IsValid = record {
  old_distinct = (refl, (refl, tt));
  new_distinct = (refl, tt);
  apart = λ k. ground arith;
}

del-moves : del ℕ_discrete 1 worn ≡ record {
  deletion_old = 0;
  deletion_new = 0;
  dirty_old = (3, 30) ∷ (2, 20) ∷ [];
  dirty_new = [];
}
unfolding del del_entry retire_old retire_new copy_into lookup insert delete ℕ_discrete
del-moves = refl

-- A callback that stops at the first value above 15.
range_stops : range {S = List ℕ} (λ k v s. (v ∷ s, ltb v 15)) worn [] ≡ 20 ∷ 10 ∷ []
unfolding range range_map
range_stops = refl

get-put_example :
    get ℕ_discrete 3 (put ℕ_discrete 3 31 worn)
    ≡ ite (ℕ_discrete 3 3) (some 31) (get ℕ_discrete 3 worn)
get-put_example = get-put ℕ_discrete 3 3 31 worn

get-del_example :
    get ℕ_discrete 3 (del ℕ_discrete 1 worn) ≡ ite (ℕ_discrete 1 3) none (get ℕ_discrete 3 worn)
get-del_example = get-del ℕ_discrete 1 3 worn worn-IsValid
