-- ===== src/Collection/SafeMap/Size.antt =====
-- Size of a SafeMap (core/collection/safemap.go) counts its keys.
use fastgozero.Prelude.{
  ℕ, ◌+◌, ◌≡◌, refl, ◌∙◌, ap, List, [], ◌∷◌, ◌⊎◌, inl, inr, Option, none, some, arith, Option-cases,
  Bool-cases, length, leb, ltb, ◌&&◌,
}
use fastgozero.Prelude.Maps.{
  lookup, insert, Distinct, lookup-insert, length-insert_new, length-insert_old, length-delete,
  delete_absent,
}
use fastgozero.Collection.SafeMap.{
  SafeMap, max_deletion, copy_threshold, size, copy_into, del_entry, retire_old, retire_new, del,
  get, put,
}
use fastgozero.Collection.SafeMap.Lookup.{IsValid, del_entry-IsValid, retire_old-IsValid}

module _ {ℓ} {K V : Type ℓ} (dec : Discrete K) where
  length-copy_into :
      (from to : List (K × V))
      → Distinct dec from
      → ((k : K) → (lookup dec k from ≡ none) ⊎ (lookup dec k to ≡ none))
      → length (copy_into dec from to) ≡ length from + length to
  unfolding copy_into
  length-copy_into [] to d apart = omega arith
  length-copy_into ((k, v) ∷ from) to d apart = omega (
    arith,
    length-copy_into from (insert dec k v to) d.1 still,
    length-insert_new dec k v to (fresh (apart k)),
  )
    where
      fresh :
          (lookup dec k ((k, v) ∷ from) ≡ none) ⊎ (lookup dec k to ≡ none) → lookup dec k to ≡ none
      fresh s = unfold lookup in ground arith

      still : (j : K) → (lookup dec j from ≡ none) ⊎ (lookup dec j (insert dec k v to) ≡ none)
      still j = unfold lookup in ground (arith, d.0, apart j, lookup-insert dec k j v to)

  size-retire_old : (m : SafeMap K V) → IsValid dec m → size (retire_old dec m) ≡ size m
  unfolding retire_old size
  size-retire_old m h =
      elim (Bool-cases
        (leb max_deletion m.deletion_old && ltb (length m.dirty_old) copy_threshold)) [
          | inr e ↦ rw e refl
          | inl e ↦
              rw e (omega (arith, length-copy_into m.dirty_old m.dirty_new h.old_distinct h.apart))
        ]

  size-retire_new : (m : SafeMap K V) → IsValid dec m → size (retire_new dec m) ≡ size m
  unfolding retire_new size
  size-retire_new m h =
      elim (Bool-cases
        (leb max_deletion m.deletion_new && ltb (length m.dirty_new) copy_threshold)) [
          | inr e ↦ rw e refl
          | inl e ↦ rw e (
              omega (
                arith,
                length-copy_into m.dirty_new m.dirty_old h.new_distinct (λ k. turned k (h.apart k)),
              ))
        ]
    where
      turned :
          (k : K)
          → (lookup dec k m.dirty_old ≡ none) ⊎ (lookup dec k m.dirty_new ≡ none)
          → (lookup dec k m.dirty_new ≡ none) ⊎ (lookup dec k m.dirty_old ≡ none)
      turned k (inl a) = inr a
      turned k (inr a) = inl a

  -- One more, if the key is there.
  abbrev pub present : Option V → ℕ
  present none = 0
  present (some _) = 1

  size-del_entry :
      (k : K) (m : SafeMap K V)
      → IsValid dec m
      → size (del_entry dec k m) + present (get dec k m) ≡ size m
  unfolding del_entry size get
  size-del_entry k m h = elim (Option-cases (lookup dec k m.dirty_old)) [
    | inr (v, e) ↦
        rw (e, del_entry, get) (omega (arith, length-delete dec k v m.dirty_old h.old_distinct e))
    | inl e ↦ elim (Option-cases (lookup dec k m.dirty_new)) [
      | inr (v, e') ↦
          rw (e, e', del_entry, get)
            (omega (arith, length-delete dec k v m.dirty_new h.new_distinct e'))
      | inl e' ↦ rw (e, e', del_entry, get) (omega arith)
    ]
  ]

  -- On a valid map, Del lowers Size by one if the key was there, and else leaves it.
  pub size-del :
      (k : K) (m : SafeMap K V)
      → IsValid dec m
      → size (del dec k m) + present (get dec k m) ≡ size m
  unfolding del
  size-del k m h =
      let v = del_entry-IsValid dec k m h in
      ap (λ n. n + present (get dec k m))
        (size-retire_new (retire_old dec (del_entry dec k m)) (retire_old-IsValid dec _ v)
          ∙ size-retire_old (del_entry dec k m) v)
      ∙ size-del_entry k m h

  -- On a valid map, Set raises Size by one if the key is new, and else leaves it.
  pub size-put :
      (k : K) (v : V) (m : SafeMap K V)
      → IsValid dec m
      → size (put dec k v m) + present (get dec k m) ≡ size m + 1
  unfolding put size get
  size-put k v m h = elim (Option-cases (lookup dec k m.dirty_old)) [
    | inr (o, e) ↦ elim (Bool-cases (leb m.deletion_old max_deletion)) [
      | inl t ↦
          rw (t, e, get)
            (omega (
              arith,
              length-insert_old dec k v o m.dirty_old e,
              ap length (delete_absent dec k m.dirty_new (absent_new e)),
            ))
      | inr f ↦
          rw (f, e, get)
            (omega (
              arith,
              length-delete dec k o m.dirty_old h.old_distinct e,
              length-insert_new dec k v m.dirty_new (absent_new e),
            ))
    ]
    | inl e ↦ elim (Option-cases (lookup dec k m.dirty_new)) [
      | inr (o, e') ↦ elim (Bool-cases (leb m.deletion_old max_deletion)) [
        | inl t ↦
            rw (t, e, e', get)
              (omega (
                arith,
                length-insert_new dec k v m.dirty_old e,
                length-delete dec k o m.dirty_new h.new_distinct e',
              ))
        | inr f ↦
            rw (f, e, e', get)
              (omega (
                arith,
                ap length (delete_absent dec k m.dirty_old e),
                length-insert_old dec k v o m.dirty_new e',
              ))
      ]
      | inl e' ↦ elim (Bool-cases (leb m.deletion_old max_deletion)) [
        | inl t ↦
            rw (t, e, e', get)
              (omega (
                arith,
                length-insert_new dec k v m.dirty_old e,
                ap length (delete_absent dec k m.dirty_new e'),
              ))
        | inr f ↦
            rw (f, e, e', get)
              (omega (
                arith,
                ap length (delete_absent dec k m.dirty_old e),
                length-insert_new dec k v m.dirty_new e',
              ))
      ]
    ]
  ]
    where
      absent_new : {o : V} → lookup dec k m.dirty_old ≡ some o → lookup dec k m.dirty_new ≡ none
      absent_new e = ground (arith, h.apart k)
