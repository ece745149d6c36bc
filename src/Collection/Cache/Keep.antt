-- ===== src/Collection/Cache/Keep.antt =====
-- Get and Del of a limited Cache (core/collection/cache.go).
use mathlib.Core.Logic.{ite}
use fastgozero.Prelude.{
  ℕ, ◌≡◌, refl, ap, sym, ◌∙◌, true, List, if◌then◌else◌, ◌∷◌, inl, inr, none, arith, Bool-cases,
  Option-cases,
}
use fastgozero.Prelude.Maps.{lookup, delete, lookup-delete, delete_absent}
use fastgozero.Collection.Cache.{
  Cache, remove_key, on_evict, remove_element, lru_add, lru_remove, del, do_get,
}
use fastgozero.Collection.Cache.Valid.{
  has_key, is_some, length-remove_key, used-Agrees, remove-Agrees, absent, use-InOrder,
  remove_key-InOrder,
}
use fastgozero.Collection.Cache.Indexed.{front-IsIndexed, remove-IsIndexed, found, missing}
use fastgozero.Collection.Cache.Evict.{IsValid, IsTracked}

module _ {K V : Type 0} (dec : Discrete K) where
  -- Get and Del on a valid cache.
  module _ (n : ℕ) (k : K) (uses : List K) (c : Cache K V) (t : IsTracked dec n uses c) where
    abbrev valid : IsValid dec n c
    valid = t.valid

    -- Get returns what is there and keeps the entries and the bound; a Get that finds a value is a use.
    pub do_get_lem :
        IsTracked dec n
          (if is_some (lookup dec k c.entries) then k ∷ uses else uses)
          (do_get dec k c).0
        × ((do_get dec k c).1 ≡ lookup dec k c.entries)
        × ((do_get dec k c).0.entries ≡ c.entries)
    unfolding is_some
    do_get_lem = elim (Option-cases (lookup dec k c.entries)) [
      | inl gone ↦ unfold do_get in rw (gone, do_get) (t, refl, refl)
      | inr (v, there) ↦
          (let old : has_key dec k valid.lru.evicts ≡ true =
              valid.agrees.covers k ∙ (unfold is_some in ap is_some there) in
            unfold do_get lru_add in
            rw (there, do_get)
              (rw valid.limited (
                rw (found dec k valid.lru.evicts valid.lru.elements valid.indexed old, lru_add)
                  (
                    record {
                      valid = record {
                        lru = record valid.lru { evicts = k ∷ remove_key dec k valid.lru.evicts };
                        limited = refl;
                        limit_is = valid.limit_is;
                        few =
                            omega (arith, length-remove_key dec k valid.lru.evicts old, valid.few);
                        agrees = used-Agrees dec k valid.lru.evicts c.entries old valid.agrees;
                        indexed =
                            front-IsIndexed dec k valid.lru.evicts valid.lru.elements
                              valid.agrees.no_dup old valid.indexed;
                      };
                      order = use-InOrder dec k t.order;
                    },
                    refl,
                    refl,
                  ))))
    ]

    deleted : lookup dec k (delete dec k c.entries) ≡ none
    deleted = ground (arith, lookup-delete dec k k c.entries)

    -- Del keeps the bound, takes the key away and no other.
    pub del_lem :
        IsTracked dec n uses (del dec k c)
        × ((j : K)
            → lookup dec j (del dec k c).entries ≡ ite (dec k j) none (lookup dec j c.entries))
    del_lem = elim (Bool-cases (has_key dec k valid.lru.evicts)) [
      | inl old ↦
          unfold del lru_remove remove_element on_evict in
          rw valid.limited (
            rw (found dec k valid.lru.evicts valid.lru.elements valid.indexed old, lru_remove)
              (rw (delete_absent dec k (delete dec k c.entries) deleted) (
                record {
                  valid = record {
                    lru = record valid.lru {
                      evicts = remove_key dec k valid.lru.evicts;
                      elements = delete dec k valid.lru.elements;
                    };
                    limited = refl;
                    limit_is = valid.limit_is;
                    few = omega (arith, length-remove_key dec k valid.lru.evicts old, valid.few);
                    agrees = remove-Agrees dec k valid.lru.evicts c.entries old valid.agrees;
                    indexed =
                        remove-IsIndexed dec k valid.lru.evicts valid.lru.elements
                          valid.agrees.no_dup valid.indexed;
                  };
                  order = remove_key-InOrder dec k t.order;
                },
                λ j. lookup-delete dec k j c.entries,
              )))
      | inr new ↦
          (let same =
              delete_absent dec k c.entries
                (absent dec k c.entries (sym (valid.agrees.covers k) ∙ new)) in
            unfold del lru_remove in
            rw valid.limited (
              rw (missing dec k valid.lru.evicts valid.lru.elements valid.indexed new, lru_remove)
                (
                  record {
                    valid = record {
                      lru = valid.lru;
                      limited = refl;
                      limit_is = valid.limit_is;
                      few = valid.few;
                      agrees = rw same valid.agrees;
                      indexed = valid.indexed;
                    };
                    order = t.order;
                  },
                  λ j. lookup-delete dec k j c.entries,
                )))
    ]
