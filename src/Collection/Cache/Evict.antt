-- ===== src/Collection/Cache/Evict.antt =====
-- What a limited Cache (core/collection/cache.go) keeps and what it evicts.
use fastgozero.Prelude.{
  ℕ, suc, ◌≤◌, ◌<◌, ◌≡◌, ◌≢◌, refl, ap, sym, ◌∙◌, true, false, List, [], ◌∷◌, ◌⊎◌, inl, inr, none,
  some, arith, ltb, length, Bool-cases,
}
use fastgozero.Prelude.Maps.{lookup, insert, delete, lookup-insert, lookup-delete}
use fastgozero.Collection.Cache.{
  Cache, KeyLru, remove_key, back, on_evict, remove_element, remove_oldest, lru_add,
  set_with_expire,
}
use fastgozero.Collection.Cache.Valid.{
  has_key, Agrees, has_key-back, length-remove_key, push-Agrees, front-Agrees, remove-Agrees,
  absent, InOrder, in_both, use-InOrder, remove_key-InOrder,
}
use fastgozero.Collection.Cache.Indexed.{
  IsIndexed, push-IsIndexed, front-IsIndexed, remove-IsIndexed, found, missing,
}

back-cons : {K : Type 0} (k : K) (l : List K) → 0 < length l → back (k ∷ l) ≡ back l
unfolding back
back-cons k [] h = absurd (omega (arith, h))
back-cons k (j ∷ l) h = refl

back-some : {K : Type 0} (l : List K) → 0 < length l → (k : K) × (back l ≡ some k)
unfolding back
back-some [] h = absurd (omega (arith, h))
back-some (k ∷ []) h = (k, refl)
back-some (k ∷ j ∷ l) h = back-some (j ∷ l) (ground arith)

module _ {K V : Type 0} (dec : Discrete K) where
  -- A cache with limit `n` whose list and data agree, and are no longer than the limit.
  pub record IsValid (n : ℕ) (c : Cache K V) : Type 0 where
    pub lru : KeyLru K
    pub limited : c.lru_cache ≡ some lru
    pub limit_is : lru.limit ≡ n
    pub few : length lru.evicts ≤ n
    pub agrees : Agrees dec lru.evicts c.entries
    pub indexed : IsIndexed dec lru.evicts lru.elements

  -- Such a cache whose list is in the order of the last uses; `uses` lists them, the last one first.
  pub record IsTracked (n : ℕ) (uses : List K) (c : Cache K V) : Type 0 where
    pub valid : IsValid n c
    pub order : InOrder dec uses valid.lru.evicts

  module _ (n : ℕ) (pos : 0 < n) (k : K) (v : V) (expiry : ℕ) (c : Cache K V) (valid : IsValid n c)
      (uses : List K) (order : InOrder dec uses valid.lru.evicts) where
    abbrev used : List K
    used = valid.lru.evicts

    abbrev elements : List (K × K)
    elements = valid.lru.elements

    abbrev next : Cache K V
    next = set_with_expire dec k v expiry c

    -- After a Set of `k`: the cache is valid, its list is in the order of the uses, of which that of
    -- `k` is the last, and it holds the value. Each other key has what it had, unless it was evicted:
    -- it was the last one of the list, the cache was full, and `k` is new.
    pub record Stores (c' : Cache K V) : Type 0 where
      pub still_valid : IsValid n c'
      pub in_order : InOrder dec (k ∷ uses) still_valid.lru.evicts
      pub holds : lookup dec k c'.entries ≡ some v
      pub others :
          (j : K)
          → (k ≡ j)
            ⊎ ((lookup dec j c'.entries ≡ lookup dec j c.entries)
                ⊎ ((lookup dec k c.entries ≡ none)
                    × (length used ≡ n)
                    × (back used ≡ some j)
                    × (lookup dec j c'.entries ≡ none)))

    unless : {P : Type 0} (j : K) → (k ≢ j → P) → (k ≡ j) ⊎ P
    unless j p = elim (dec k j) [ yes e ↦ inl e | no ne ↦ inr (p ne) ]

    inserted : (j : K) → k ≢ j → lookup dec j (insert dec k v c.entries) ≡ lookup dec j c.entries
    inserted j ne = ground (arith, lookup-insert dec k j v c.entries)

    inserted_self : lookup dec k (insert dec k v c.entries) ≡ some v
    inserted_self = ground (arith, lookup-insert dec k k v c.entries)

    Stores-old : has_key dec k used ≡ true → Stores next
    Stores-old old =
        unfold set_with_expire lru_add in
        rw valid.limited (
          rw (found dec k used elements valid.indexed old, lru_add)
            (record {
              still_valid = record {
                lru = record valid.lru { evicts = k ∷ remove_key dec k used };
                limited = refl;
                limit_is = valid.limit_is;
                few = omega (arith, length-remove_key dec k used old, valid.few);
                agrees = front-Agrees dec k v used c.entries old valid.agrees;
                indexed = front-IsIndexed dec k used elements valid.agrees.no_dup old valid.indexed;
              };
              in_order = use-InOrder dec k order;
              holds = inserted_self;
              others = λ j. unless j (λ ne. inl (inserted j ne));
            }))

    Stores-new :
        has_key dec k used ≡ false → ltb valid.lru.limit (suc (length used)) ≡ false → Stores next
    Stores-new new room =
        unfold set_with_expire lru_add in
        rw valid.limited (
          rw (missing dec k used elements valid.indexed new, lru_add)
            (rw room (record {
              still_valid = record {
                lru = record valid.lru { evicts = k ∷ used; elements = insert dec k k elements };
                limited = refl;
                limit_is = valid.limit_is;
                few = ground (arith, room, valid.limit_is);
                agrees = push-Agrees dec k v used c.entries new valid.agrees;
                indexed = push-IsIndexed dec k used elements valid.indexed;
              };
              in_order = in_both k new order;
              holds = inserted_self;
              others = λ j. unless j (λ ne. inl (inserted j ne));
            })))

    Stores-full :
        has_key dec k used ≡ false → ltb valid.lru.limit (suc (length used)) ≡ true → Stores next
    Stores-full new over =
        unfold set_with_expire lru_add remove_oldest remove_element on_evict in
        rw valid.limited (
          rw (missing dec k used elements valid.indexed new, lru_add)
            (rw over (
              rw (oldest_is, remove_oldest)
                (record {
                  still_valid = record {
                    lru = record valid.lru {
                      evicts = remove_key dec oldest (k ∷ used);
                      elements = delete dec oldest (insert dec k k elements);
                    };
                    limited = refl;
                    limit_is = valid.limit_is;
                    few = omega (arith, length-remove_key dec oldest (k ∷ used) there, full);
                    agrees =
                        remove-Agrees dec oldest (k ∷ used) (insert dec k v c.entries) there
                          (push-Agrees dec k v used c.entries new valid.agrees);
                    indexed =
                        remove-IsIndexed dec oldest (k ∷ used) (insert dec k k elements)
                          (new, valid.agrees.no_dup)
                          (push-IsIndexed dec k used elements valid.indexed);
                  };
                  in_order = remove_key-InOrder dec oldest (in_both k new order);
                  holds = ground (
                    arith,
                    lookup-delete dec oldest k (insert dec k v c.entries),
                    inserted_self,
                    other,
                  );
                  others = λ j. unless j (gone j);
                }))))
      where
        full : length used ≡ n
        full = ground (arith, over, valid.limit_is, valid.few)

        some_used : (x : K) × (back used ≡ some x)
        some_used = back-some used (omega (arith, full, pos))

        oldest : K
        oldest = some_used.0

        oldest_is : back (k ∷ used) ≡ some oldest
        oldest_is = back-cons k used (omega (arith, full, pos)) ∙ some_used.1

        was_used : has_key dec oldest used ≡ true
        was_used = has_key-back dec oldest used some_used.1

        there : has_key dec oldest (k ∷ used) ≡ true
        there = unfold has_key in ground (arith, was_used)

        other : oldest ≢ k
        other e = absurd (true_not_false (sym was_used ∙ ap (λ x. has_key dec x used) e ∙ new))
          where
            true_not_false : true ≡ false → ⊥
            true_not_false h = cc

        gone :
            (j : K)
            → k ≢ j
            → (lookup dec j (delete dec oldest (insert dec k v c.entries)) ≡ lookup dec j c.entries)
              ⊎ ((lookup dec k c.entries ≡ none)
                  × (length used ≡ n)
                  × (back used ≡ some j)
                  × (lookup dec j (delete dec oldest (insert dec k v c.entries)) ≡ none))
        gone j ne = elim (dec oldest j) [
          | yes same ↦ inr (
            absent dec k c.entries (sym (valid.agrees.covers k) ∙ new),
            full,
            some_used.1 ∙ ap some same,
            ground (arith, lookup-delete dec oldest j (insert dec k v c.entries), same),
          )
          | no kept ↦ inl (
              ground (arith, lookup-delete dec oldest j (insert dec k v c.entries), kept)
              ∙ inserted j ne)
        ]

    pub set_with_expire-Stores : Stores next
    set_with_expire-Stores = elim (Bool-cases (has_key dec k used)) [
      | inl old ↦ Stores-old old
      | inr new ↦ elim (Bool-cases (ltb valid.lru.limit (suc (length used)))) [
        | inl over ↦ Stores-full new over
        | inr room ↦ Stores-new new room
      ]
    ]
