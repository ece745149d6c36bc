-- ===== src/Collection/SafeMap/Lookup.antt =====
-- What can be read from a SafeMap (core/collection/safemap.go) after each operation.
use mathlib.Core.Logic.{ite}
use fastgozero.Prelude.{
  ◌≡◌, refl, ◌∙◌, List, [], ◌∷◌, ◌⊎◌, inl, inr, Option, none, some, arith, Option-cases, Bool-cases,
  length, leb, ltb, ◌&&◌,
}
use fastgozero.Prelude.Maps.{
  lookup, insert, Distinct, lookup-insert, lookup-delete, insert-Distinct, delete-Distinct,
}
use fastgozero.Collection.SafeMap.{
  SafeMap, max_deletion, copy_threshold, copy_into, del_entry, retire_old, retire_new, del, get,
  put,
}

module _ {ℓ} {K V : Type ℓ} (dec : Discrete K) where
  -- No key twice, in one map or in both.
  pub record IsValid (m : SafeMap K V) : Type ℓ where
    pub old_distinct : Distinct dec m.dirty_old
    pub new_distinct : Distinct dec m.dirty_new
    pub apart : (k : K) → (lookup dec k m.dirty_old ≡ none) ⊎ (lookup dec k m.dirty_new ≡ none)

  -- The first map's value, else the second's.
  abbrev pub or_else : Option V → Option V → Option V
  or_else (some v) o = some v
  or_else none o = o

  pub lookup-copy_into :
      (j : K) (from to : List (K × V))
      → Distinct dec from
      → lookup dec j (copy_into dec from to) ≡ or_else (lookup dec j from) (lookup dec j to)
  unfolding copy_into lookup
  lookup-copy_into j [] to d = refl
  lookup-copy_into j ((k, v) ∷ from) to d =
      ground (arith, lookup-copy_into j from (insert dec k v to) d.1, lookup-insert dec k j v to)

  pub copy_into-Distinct :
      (from to : List (K × V)) → Distinct dec to → Distinct dec (copy_into dec from to)
  unfolding copy_into
  copy_into-Distinct [] to d = d
  copy_into-Distinct ((k, v) ∷ from) to d =
      copy_into-Distinct from (insert dec k v to) (insert-Distinct dec k v to d)

  -- Set: the key has the value, and every other key what it had.
  pub get-put :
      (k j : K) (v : V) (m : SafeMap K V)
      → get dec j (put dec k v m) ≡ ite (dec k j) (some v) (get dec j m)
  unfolding get put
  get-put k j v m = ground (
    arith,
    lookup-insert dec k j v m.dirty_old,
    lookup-insert dec k j v m.dirty_new,
    lookup-delete dec k j m.dirty_old,
    lookup-delete dec k j m.dirty_new,
  )

  get-del_entry :
      (k j : K) (m : SafeMap K V)
      → IsValid m
      → get dec j (del_entry dec k m) ≡ ite (dec k j) none (get dec j m)
  unfolding get del_entry
  get-del_entry k j m h = ground (
    arith,
    h.apart j,
    h.apart k,
    lookup-delete dec k j m.dirty_old,
    lookup-delete dec k j m.dirty_new,
  )

  get-retire_old :
      (j : K) (m : SafeMap K V) → IsValid m → get dec j (retire_old dec m) ≡ get dec j m
  unfolding get retire_old lookup
  get-retire_old j m h = ground (arith, lookup-copy_into j m.dirty_old m.dirty_new h.old_distinct)

  get-retire_new :
      (j : K) (m : SafeMap K V) → IsValid m → get dec j (retire_new dec m) ≡ get dec j m
  unfolding get retire_new lookup
  get-retire_new j m h =
      ground (arith, h.apart j, lookup-copy_into j m.dirty_new m.dirty_old h.new_distinct)

  pub del_entry-IsValid : (k : K) (m : SafeMap K V) → IsValid m → IsValid (del_entry dec k m)
  unfolding del_entry
  del_entry-IsValid k m h = elim (Option-cases (lookup dec k m.dirty_old)) [
    | inr (v, e) ↦
        rw (e, del_entry)
          (record {
            old_distinct = delete-Distinct dec k m.dirty_old h.old_distinct;
            new_distinct = h.new_distinct;
            apart = λ j. ground (arith, h.apart j, lookup-delete dec k j m.dirty_old);
          })
    | inl e ↦ elim (Option-cases (lookup dec k m.dirty_new)) [
      | inr (v, e') ↦
          rw (e, e', del_entry)
            (record {
              old_distinct = h.old_distinct;
              new_distinct = delete-Distinct dec k m.dirty_new h.new_distinct;
              apart = λ j. ground (arith, h.apart j, lookup-delete dec k j m.dirty_new);
            })
      | inl e' ↦ rw (e, e', del_entry) h
    ]
  ]

  pub retire_old-IsValid : (m : SafeMap K V) → IsValid m → IsValid (retire_old dec m)
  unfolding retire_old lookup
  retire_old-IsValid m h =
      elim (Bool-cases
        (leb max_deletion m.deletion_old && ltb (length m.dirty_old) copy_threshold)) [
          | inr e ↦ rw e h
          | inl e ↦ rw e (record {
            old_distinct = copy_into-Distinct m.dirty_old m.dirty_new h.new_distinct;
            new_distinct = tt;
            apart = λ j. inr refl;
          })
        ]

  retire_new-IsValid : (m : SafeMap K V) → IsValid m → IsValid (retire_new dec m)
  unfolding retire_new lookup
  retire_new-IsValid m h =
      elim (Bool-cases
        (leb max_deletion m.deletion_new && ltb (length m.dirty_new) copy_threshold)) [
          | inr e ↦ rw e h
          | inl e ↦ rw e (record {
            old_distinct = copy_into-Distinct m.dirty_new m.dirty_old h.old_distinct;
            new_distinct = tt;
            apart = λ j. inr refl;
          })
        ]

  -- Del keeps the maps free of double keys and apart.
  pub del-IsValid : (k : K) (m : SafeMap K V) → IsValid m → IsValid (del dec k m)
  unfolding del
  del-IsValid k m h = retire_new-IsValid _ (retire_old-IsValid _ (del_entry-IsValid k m h))

  -- Set keeps them so too.
  pub put-IsValid : (k : K) (v : V) (m : SafeMap K V) → IsValid m → IsValid (put dec k v m)
  unfolding put
  put-IsValid k v m h = elim (Bool-cases (leb m.deletion_old max_deletion)) [
    | inl e ↦ rw e (record {
      old_distinct = insert-Distinct dec k v m.dirty_old h.old_distinct;
      new_distinct = delete-Distinct dec k m.dirty_new h.new_distinct;
      apart = λ j. ground (
        arith,
        h.apart j,
        lookup-insert dec k j v m.dirty_old,
        lookup-delete dec k j m.dirty_new,
      );
    })
    | inr e ↦ rw e (record {
      old_distinct = delete-Distinct dec k m.dirty_old h.old_distinct;
      new_distinct = insert-Distinct dec k v m.dirty_new h.new_distinct;
      apart = λ j. ground (
        arith,
        h.apart j,
        lookup-delete dec k j m.dirty_old,
        lookup-insert dec k j v m.dirty_new,
      );
    })
  ]

  -- On a valid map, Del takes the key away and leaves every other key's value, also when it moves
  -- the entries of one map into the other.
  pub get-del :
      (k j : K) (m : SafeMap K V)
      → IsValid m
      → get dec j (del dec k m) ≡ ite (dec k j) none (get dec j m)
  unfolding del
  get-del k j m h =
      get-retire_new j (retire_old dec (del_entry dec k m))
        (retire_old-IsValid _ (del_entry-IsValid k m h))
      ∙ get-retire_old j (del_entry dec k m) (del_entry-IsValid k m h)
      ∙ get-del_entry k j m h
