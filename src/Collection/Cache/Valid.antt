-- ===== src/Collection/Cache/Valid.antt =====
-- The invariant of a limited Cache (core/collection/cache.go): the keys of its list and of its data are
-- the same, and they are no more than the limit.
use mathlib.Core.Logic.{ite}
use fastgozero.Prelude.{
  suc, ◌≡◌, refl, ap, sym, ◌∙◌, Bool, true, false, List, [], ◌∷◌, inl, inr, Option, none, some,
  arith, length, Option-cases,
}
use fastgozero.Prelude.Maps.{
  lookup, insert, delete, Distinct, lookup-insert, lookup-delete, insert-Distinct, delete-Distinct,
  length-insert_new, length-insert_old, length-delete,
}
use fastgozero.Collection.Cache.{remove_key, back}

unfoldable pub is_some : {A : Type 0} → Option A → Bool
is_some none = false
is_some (some a) = true

module _ {K : Type 0} (dec : Discrete K) where
  unfoldable pub has_key : K → List K → Bool
  has_key k [] = false
  has_key k (j ∷ l) = ite (dec j k) true (has_key k l)

module _ {K : Type 0} (dec : Discrete K) where
  abbrev pub NoDup : List K → Type 0
  NoDup [] = Unit
  NoDup (k ∷ l) = (has_key dec k l ≡ false) × NoDup l

  remove_absent : (k : K) (l : List K) → has_key dec k l ≡ false → remove_key dec k l ≡ l
  unfolding has_key remove_key
  remove_absent k [] h = refl
  remove_absent k (i ∷ l) h = ground (arith, remove_absent k l)

  pub has_key-remove_key :
      (k j : K) (l : List K)
      → NoDup l
      → has_key dec j (remove_key dec k l) ≡ ite (dec k j) false (has_key dec j l)
  unfolding has_key remove_key
  has_key-remove_key k j [] d = ground arith
  has_key-remove_key k j (i ∷ l) d = ground (arith, has_key-remove_key k j l d.1, d.0)

  remove_key-NoDup : (k : K) (l : List K) → NoDup l → NoDup (remove_key dec k l)
  unfolding has_key remove_key
  remove_key-NoDup k [] d = tt
  remove_key-NoDup k (i ∷ l) d =
      ground (arith, remove_key-NoDup k l d.1, has_key-remove_key k i l d.1, d.0, d.1)

  pub length-remove_key :
      (k : K) (l : List K) → has_key dec k l ≡ true → suc (length (remove_key dec k l)) ≡ length l
  unfolding has_key remove_key
  length-remove_key k [] h = ground arith
  length-remove_key k (i ∷ l) h = ground (arith, length-remove_key k l)

  pub has_key-back : (k : K) (l : List K) → back l ≡ some k → has_key dec k l ≡ true
  unfolding has_key back
  has_key-back k [] h = absurd cc
  has_key-back k (i ∷ []) h = ground (arith, h)
  has_key-back k (i ∷ j ∷ l) h = ground (arith, has_key-back k (j ∷ l) h)

  front : (k : K) (evicts : List K) → NoDup evicts → NoDup (k ∷ remove_key dec k evicts)
  front k evicts d = (ground (arith, has_key-remove_key k k evicts d), remove_key-NoDup k evicts d)

module _ {K : Type 0} (dec : Discrete K) where
  -- The list has keys of `h`, the one that stands first in `h` first: where `h` lists the keys as they
  -- were used, the last use first, these are keys in the order of their last uses.
  pub data InOrder : List K → List K → Type 0 where
    in_none : InOrder [] []
    in_both :
        {h l : List K} (k : K) → has_key dec k l ≡ false → InOrder h l → InOrder (k ∷ h) (k ∷ l)
    in_uses : {h l : List K} (k : K) → has_key dec k l ≡ false → InOrder h l → InOrder (k ∷ h) l

  InOrder-NoDup : {h l : List K} → InOrder h l → NoDup dec l
  InOrder-NoDup in_none = tt
  InOrder-NoDup (in_both k new o) = (new, InOrder-NoDup o)
  InOrder-NoDup (in_uses k new o) = InOrder-NoDup o

  pub remove_key-InOrder : (j : K) {h l : List K} → InOrder h l → InOrder h (remove_key dec j l)
  unfolding has_key remove_key
  remove_key-InOrder j in_none = in_none
  remove_key-InOrder j (in_both {h} {l} k new o) =
      elim (dec k j) as (λ d. InOrder (k ∷ h) (ite d l (k ∷ remove_key dec j l))) [
        | yes e ↦ in_uses k new o
        | no ne ↦
            in_both k (ground (arith, has_key-remove_key dec j k l (InOrder-NoDup o), new))
              (remove_key-InOrder j o)
      ]
  remove_key-InOrder j (in_uses {h} {l} k new o) =
      in_uses k (ground (arith, has_key-remove_key dec j k l (InOrder-NoDup o), new))
        (remove_key-InOrder j o)

  -- A use of a key brings it to the front.
  pub use-InOrder : (k : K) {h l : List K} → InOrder h l → InOrder (k ∷ h) (k ∷ remove_key dec k l)
  use-InOrder k {h} {l} o =
      in_both k (ground (arith, has_key-remove_key dec k k l (InOrder-NoDup o)))
        (remove_key-InOrder k o)

module _ {K V : Type 0} (dec : Discrete K) where
  -- A list of keys without repeats and a map of the same keys.
  pub record Agrees (evicts : List K) (entries : List (K × V)) : Type 0 where
    pub covers : (j : K) → has_key dec j evicts ≡ is_some (lookup dec j entries)
    pub no_dup : NoDup dec evicts
    pub distinct : Distinct dec entries
    pub same_length : length entries ≡ length evicts

  pub is_some-insert :
      (k j : K) (v : V) (m : List (K × V))
      → is_some (lookup dec j (insert dec k v m)) ≡ ite (dec k j) true (is_some (lookup dec j m))
  unfolding is_some
  is_some-insert k j v m = ground (arith, lookup-insert dec k j v m)

  pub is_some-delete :
      (k j : K) (m : List (K × V))
      → is_some (lookup dec j (delete dec k m)) ≡ ite (dec k j) false (is_some (lookup dec j m))
  unfolding is_some
  is_some-delete k j m = ground (arith, lookup-delete dec k j m)

  pub absent : (k : K) (m : List (K × V)) → is_some (lookup dec k m) ≡ false → lookup dec k m ≡ none
  unfolding is_some
  absent k m h = ground (arith, h)

  pub present :
      (k : K) (m : List (K × V))
      → is_some (lookup dec k m) ≡ true
      → (v : V) × (lookup dec k m ≡ some v)
  unfolding is_some
  present k m h = elim (Option-cases (lookup dec k m)) [
    | inl gone ↦ absurd (ground (arith, h, gone))
    | inr there ↦ there
  ]

  pub push-Agrees :
      (k : K) (v : V) (evicts : List K) (entries : List (K × V))
      → has_key dec k evicts ≡ false
      → Agrees evicts entries
      → Agrees (k ∷ evicts) (insert dec k v entries)
  push-Agrees k v evicts entries new a = record {
    covers = λ j. unfold has_key in ground (arith, a.covers j, is_some-insert k j v entries);
    no_dup = (new, a.no_dup);
    distinct = insert-Distinct dec k v entries a.distinct;
    same_length =
        length-insert_new dec k v entries (absent k entries (sym (a.covers k) ∙ new))
        ∙ ap suc a.same_length;
  }

  pub front-Agrees :
      (k : K) (v : V) (evicts : List K) (entries : List (K × V))
      → has_key dec k evicts ≡ true
      → Agrees evicts entries
      → Agrees (k ∷ remove_key dec k evicts) (insert dec k v entries)
  front-Agrees k v evicts entries old a = record {
    covers = λ j.
        unfold has_key in
        ground (
          arith,
          a.covers j,
          is_some-insert k j v entries,
          has_key-remove_key dec k j evicts a.no_dup,
        );
    no_dup = front dec k evicts a.no_dup;
    distinct = insert-Distinct dec k v entries a.distinct;
    same_length =
        let (w, there) = present k entries (sym (a.covers k) ∙ old) in
        length-insert_old dec k v w entries there
        ∙ a.same_length
        ∙ sym (length-remove_key dec k evicts old);
  }

  pub used-Agrees :
      (k : K) (evicts : List K) (entries : List (K × V))
      → has_key dec k evicts ≡ true
      → Agrees evicts entries
      → Agrees (k ∷ remove_key dec k evicts) entries
  used-Agrees k evicts entries old a = record {
    covers = λ j.
        unfold has_key in ground (arith, a.covers j, has_key-remove_key dec k j evicts a.no_dup);
    no_dup = front dec k evicts a.no_dup;
    distinct = a.distinct;
    same_length = a.same_length ∙ sym (length-remove_key dec k evicts old);
  }

  pub remove-Agrees :
      (k : K) (evicts : List K) (entries : List (K × V))
      → has_key dec k evicts ≡ true
      → Agrees evicts entries
      → Agrees (remove_key dec k evicts) (delete dec k entries)
  remove-Agrees k evicts entries old a = record {
    covers = λ j.
        ground (
          arith,
          a.covers j,
          is_some-delete k j entries,
          has_key-remove_key dec k j evicts a.no_dup,
        );
    no_dup = remove_key-NoDup dec k evicts a.no_dup;
    distinct = delete-Distinct dec k entries a.distinct;
    same_length =
        let (w, there) = present k entries (sym (a.covers k) ∙ old) in
        omega (
          arith,
          length-delete dec k w entries a.distinct there,
          length-remove_key dec k evicts old,
          a.same_length,
        );
  }
