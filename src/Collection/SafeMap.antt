-- ===== src/Collection/SafeMap.antt =====
-- core/collection/safemap.go: SafeMap, a map over two Go maps that moves its entries to a fresh map
-- after many deletions. Go's maps are association lists; the order in which Range meets the
-- entries, which Go leaves open, is the order of the lists. The lock makes each method one step.
pub mod Lookup
pub mod Size
mod Tests
use fastgozero.Prelude.{
  ℕ, ◌+◌, List, [], ◌∷◌, Bool, true, false, ◌&&◌, Option, none, some, ltb, leb, if◌then◌else◌,
  length,
}
use fastgozero.Prelude.Maps.{lookup, insert, delete}

abbrev pub copy_threshold : ℕ
copy_threshold = 1000

abbrev pub max_deletion : ℕ
max_deletion = 10000

pub record SafeMap {ℓ} (K V : Type ℓ) : Type ℓ where
  pub deletion_old : ℕ
  pub deletion_new : ℕ
  pub dirty_old : List (K × V)
  pub dirty_new : List (K × V)

-- NewSafeMap
unfoldable pub new_safe_map {ℓ} : {K V : Type ℓ} → SafeMap K V
new_safe_map = record { deletion_old = 0; deletion_new = 0; dirty_old = []; dirty_new = [] }

-- The loop of Range over one map, with the callback's own state `s`; the flag is false once it has
-- returned false.
unfoldable pub range_map {ℓ} :
    {K V S : Type ℓ} → (K → V → S → S × Bool) → List (K × V) → S → S × Bool
range_map f [] s = (s, true)
range_map f ((k, v) ∷ m) s =
    let (s', more) = f k v s in elim more [ true ↦ range_map f m s' | false ↦ (s', false) ]

-- Range
unfoldable pub range {ℓ} : {K V S : Type ℓ} → (K → V → S → S × Bool) → SafeMap K V → S → S
range f m s =
    let (s', more) = range_map f m.dirty_old s in
    elim more [ true ↦ (range_map f m.dirty_new s').0 | false ↦ s' ]

-- Size
unfoldable pub size {ℓ} : {K V : Type ℓ} → SafeMap K V → ℕ
size m = length m.dirty_old + length m.dirty_new

module _ {ℓ} {K V : Type ℓ} (dec : Discrete K) where
  -- `for k, v := range from { to[k] = v }`
  unfoldable pub copy_into : List (K × V) → List (K × V) → List (K × V)
  copy_into [] to = to
  copy_into ((k, v) ∷ from) to = copy_into from (insert dec k v to)

  -- The deletion at the start of Del.
  unfoldable pub del_entry : K → SafeMap K V → SafeMap K V
  del_entry k m = elim (lookup dec k m.dirty_old) [
    | some _ ↦ record m { dirty_old = delete dec k m.dirty_old; deletion_old = m.deletion_old + 1 }
    | none ↦ elim (lookup dec k m.dirty_new) [
      | some _ ↦ record m {
        dirty_new = delete dec k m.dirty_new;
        deletion_new = m.deletion_new + 1;
      }
      | none ↦ m
    ]
  ]

  -- The second `if` of Del: the old map was emptied often and is small.
  unfoldable pub retire_old : SafeMap K V → SafeMap K V
  retire_old m =
      if leb max_deletion m.deletion_old && ltb (length m.dirty_old) copy_threshold
      then record {
        deletion_old = m.deletion_new;
        deletion_new = 0;
        dirty_old = copy_into m.dirty_old m.dirty_new;
        dirty_new = [];
      }
      else m

  -- The third `if` of Del.
  unfoldable pub retire_new : SafeMap K V → SafeMap K V
  retire_new m =
      if leb max_deletion m.deletion_new && ltb (length m.dirty_new) copy_threshold
      then record m {
        deletion_new = 0;
        dirty_old = copy_into m.dirty_new m.dirty_old;
        dirty_new = [];
      }
      else m

  -- Del
  unfoldable pub del : K → SafeMap K V → SafeMap K V
  del k m = retire_new (retire_old (del_entry k m))

  -- Get
  unfoldable pub get : K → SafeMap K V → Option V
  get k m = elim (lookup dec k m.dirty_old) [ some v ↦ some v | none ↦ lookup dec k m.dirty_new ]

  -- Set
  unfoldable pub put : K → V → SafeMap K V → SafeMap K V
  put k v m =
      if leb m.deletion_old max_deletion
      then record {
        deletion_old = m.deletion_old;
        deletion_new = elim (lookup dec k m.dirty_new) [
          | some _ ↦ m.deletion_new + 1
          | none ↦ m.deletion_new
        ];
        dirty_old = insert dec k v m.dirty_old;
        dirty_new = delete dec k m.dirty_new;
      }
      else record {
        deletion_old = elim (lookup dec k m.dirty_old) [
          | some _ ↦ m.deletion_old + 1
          | none ↦ m.deletion_old
        ];
        deletion_new = m.deletion_new;
        dirty_old = delete dec k m.dirty_old;
        dirty_new = insert dec k v m.dirty_new;
      }
