-- ===== src/Prelude/Lists.antt =====
-- Lists measured and indexed by native numbers, under the library's names: Go's slices.
use Prim.Native.Nat.{ℕ, zero, suc, ◌+◌, ◌-◌, ◌<◌, ◌≤◌, min}
use mathlib.Core.Path.{◌≡◌, refl, ap, sym, ◌∙◌}
use mathlib.Core.Logic.{◌≢◌}
use mathlib.Core.List.{List, [], ◌∷◌, ◌++◌, map}
use mathlib.Core.Option.{Option, none, some}
use native.Mathlib.Omega.{arith}

module _ {ℓ} {A : Type ℓ} where
  abbrev pub length : List A → ℕ
  length [] = 0
  length (x ∷ xs) = suc (length xs)

  abbrev pub get_elem? : List A → ℕ → Option A
  get_elem? [] i = none
  get_elem? (x ∷ xs) zero = some x
  get_elem? (x ∷ xs) (suc i) = get_elem? xs i

  abbrev pub get_or : List A → ℕ → A → A
  get_or [] i d = d
  get_or (x ∷ xs) zero d = x
  get_or (x ∷ xs) (suc i) d = get_or xs i d

  -- A write out of bounds changes nothing.
  abbrev pub set : List A → ℕ → A → List A
  set [] i v = []
  set (x ∷ xs) zero v = v ∷ xs
  set (x ∷ xs) (suc i) v = x ∷ set xs i v

  abbrev pub take : ℕ → List A → List A
  take zero xs = []
  take (suc n) [] = []
  take (suc n) (x ∷ xs) = x ∷ take n xs

  abbrev pub drop : ℕ → List A → List A
  drop zero xs = xs
  drop (suc n) [] = []
  drop (suc n) (x ∷ xs) = drop n xs

  abbrev pub replicate : ℕ → A → List A
  replicate zero a = []
  replicate (suc n) a = a ∷ replicate n a

module _ {ℓ} {A : Type ℓ} where
  pub length-append : (xs ys : List A) → length (xs ++ ys) ≡ length xs + length ys
  length-append [] ys = omega arith
  length-append (x ∷ xs) ys = omega (arith, length-append xs ys)

  pub length-set : (xs : List A) (i : ℕ) (v : A) → length (set xs i v) ≡ length xs
  length-set [] i v = refl
  length-set (x ∷ xs) zero v = refl
  length-set (x ∷ xs) (suc i) v = ap suc (length-set xs i v)

  pub length-take : (n : ℕ) (xs : List A) → length (take n xs) ≡ min n (length xs)
  length-take zero xs = omega arith
  length-take (suc n) [] = omega arith
  length-take (suc n) (x ∷ xs) = omega (arith, length-take n xs)

  pub length-drop : (n : ℕ) (xs : List A) → length (drop n xs) ≡ length xs - n
  length-drop zero xs = omega arith
  length-drop (suc n) [] = omega arith
  length-drop (suc n) (x ∷ xs) = omega (arith, length-drop n xs)

  pub length-replicate : (n : ℕ) (a : A) → length (replicate n a) ≡ n
  length-replicate zero a = refl
  length-replicate (suc n) a = ap suc (length-replicate n a)

  pub length-map {κ} : {B : Type κ} (xs : List A) (f : A → B) → length (map f xs) ≡ length xs
  length-map [] f = refl
  length-map (x ∷ xs) f = ap suc (length-map xs f)

  pub get_or-set_self :
      (xs : List A) (i : ℕ) (v d : A) → i < length xs → get_or (set xs i v) i d ≡ v
  get_or-set_self [] i v d h = absurd (omega arith)
  get_or-set_self (x ∷ xs) zero v d h = refl
  get_or-set_self (x ∷ xs) (suc i) v d h = get_or-set_self xs i v d (omega arith)

  pub get_or-set_ne :
      (xs : List A) (i j : ℕ) (v d : A) → i ≢ j → get_or (set xs i v) j d ≡ get_or xs j d
  get_or-set_ne [] i j v d h = refl
  get_or-set_ne (x ∷ xs) zero zero v d h = absurd (h refl)
  get_or-set_ne (x ∷ xs) zero (suc j) v d h = refl
  get_or-set_ne (x ∷ xs) (suc i) zero v d h = refl
  get_or-set_ne (x ∷ xs) (suc i) (suc j) v d h = get_or-set_ne xs i j v d (λ e. h (ap suc e))

  pub get_or-append_left :
      (xs ys : List A) (i : ℕ) (d : A) → i < length xs → get_or (xs ++ ys) i d ≡ get_or xs i d
  get_or-append_left [] ys i d h = absurd (omega arith)
  get_or-append_left (x ∷ xs) ys zero d h = refl
  get_or-append_left (x ∷ xs) ys (suc i) d h = get_or-append_left xs ys i d (omega arith)

  pub get_or-append_right :
      (xs ys : List A) (i : ℕ) (d : A) → get_or (xs ++ ys) (length xs + i) d ≡ get_or ys i d
  get_or-append_right [] ys i d = ap (λ k. get_or ys k d) (omega arith)
  get_or-append_right (x ∷ xs) ys i d = rw (suc_add (length xs) i) (get_or-append_right xs ys i d)
    where
      suc_add : (a b : ℕ) → suc a + b ≡ suc (a + b)
      suc_add a b = omega arith

  pub get_or-take :
      (n : ℕ) (xs : List A) (i : ℕ) (d : A) → i < n → get_or (take n xs) i d ≡ get_or xs i d
  get_or-take zero xs i d h = absurd (omega arith)
  get_or-take (suc n) [] i d h = refl
  get_or-take (suc n) (x ∷ xs) zero d h = refl
  get_or-take (suc n) (x ∷ xs) (suc i) d h = get_or-take n xs i d (omega arith)

  pub get_or-drop :
      (n : ℕ) (xs : List A) (i : ℕ) (d : A) → get_or (drop n xs) i d ≡ get_or xs (n + i) d
  get_or-drop zero xs i d = ap (λ k. get_or xs k d) (omega arith)
  get_or-drop (suc n) [] i d = refl
  get_or-drop (suc n) (x ∷ xs) i d = rw (suc_add n i) (get_or-drop n xs i d)
    where
      suc_add : (a b : ℕ) → suc a + b ≡ suc (a + b)
      suc_add a b = omega arith

  pub drop_all : (n : ℕ) (xs : List A) → length xs ≤ n → drop n xs ≡ []
  drop_all zero [] h = refl
  drop_all zero (x ∷ xs) h = absurd (omega arith)
  drop_all (suc n) [] h = refl
  drop_all (suc n) (x ∷ xs) h = drop_all n xs (omega arith)

  pub drop-append_left :
      (n : ℕ) (xs ys : List A) → n ≤ length xs → drop n (xs ++ ys) ≡ drop n xs ++ ys
  drop-append_left zero xs ys h = refl
  drop-append_left (suc n) [] ys h = absurd (omega arith)
  drop-append_left (suc n) (x ∷ xs) ys h = drop-append_left n xs ys (omega arith)

  pub drop-drop : (a b : ℕ) (xs : List A) → drop a (drop b xs) ≡ drop (b + a) xs
  drop-drop a zero xs = ap (λ k. drop k xs) from_zero
    where
      from_zero : a ≡ 0 + a
      from_zero = omega arith
  drop-drop a (suc b) [] = drop_all a [] (omega arith) ∙ sym (drop_all (suc b + a) [] (omega arith))
  drop-drop a (suc b) (x ∷ xs) = rw (suc_add b a) (drop-drop a b xs)
    where
      suc_add : (a b : ℕ) → suc a + b ≡ suc (a + b)
      suc_add a b = omega arith

  -- `copy(dst[off:], src)`: as many elements as both hold.
  unfoldable pub copy_at : ℕ → List A → List A → List A
  copy_at (suc off) [] src = []
  copy_at (suc off) (x ∷ dst) src = x ∷ copy_at off dst src
  copy_at zero [] src = []
  copy_at zero (x ∷ dst) [] = x ∷ dst
  copy_at zero (x ∷ dst) (y ∷ src) = y ∷ copy_at zero dst src

  pub length-copy_at : (off : ℕ) (dst src : List A) → length (copy_at off dst src) ≡ length dst
  unfolding copy_at
  length-copy_at (suc off) [] src = refl
  length-copy_at (suc off) (x ∷ dst) src = ap suc (length-copy_at off dst src)
  length-copy_at zero [] src = refl
  length-copy_at zero (x ∷ dst) [] = refl
  length-copy_at zero (x ∷ dst) (y ∷ src) = ap suc (length-copy_at zero dst src)

  pub get_or-copy_at_before :
      (off : ℕ) (dst src : List A) (i : ℕ) (d : A)
      → i < off
      → get_or (copy_at off dst src) i d ≡ get_or dst i d
  unfolding copy_at
  get_or-copy_at_before zero dst src i d h = absurd (omega arith)
  get_or-copy_at_before (suc off) [] src i d h = refl
  get_or-copy_at_before (suc off) (x ∷ dst) src zero d h = refl
  get_or-copy_at_before (suc off) (x ∷ dst) src (suc i) d h =
      get_or-copy_at_before off dst src i d (omega arith)

  pub get_or-copy_at :
      (off : ℕ) (dst src : List A) (i j : ℕ) (d : A)
      → i < length src
      → off + i < length dst
      → j ≡ off + i
      → get_or (copy_at off dst src) j d ≡ get_or src i d
  unfolding copy_at
  get_or-copy_at (suc off) [] src i j d h h' e = absurd (omega arith)
  get_or-copy_at (suc off) (x ∷ dst) src i zero d h h' e = absurd (omega arith)
  get_or-copy_at (suc off) (x ∷ dst) src i (suc j) d h h' e =
      get_or-copy_at off dst src i j d h (omega arith) (omega arith)
  get_or-copy_at zero [] src i j d h h' e = absurd (omega arith)
  get_or-copy_at zero (x ∷ dst) [] i j d h h' e = absurd (omega arith)
  get_or-copy_at zero (x ∷ dst) (y ∷ src) zero zero d h h' e = refl
  get_or-copy_at zero (x ∷ dst) (y ∷ src) (suc i) (suc j) d h h' e =
      get_or-copy_at zero dst src i j d (omega arith) (omega arith) (omega arith)
  get_or-copy_at zero (x ∷ dst) (y ∷ src) zero (suc j) d h h' e = absurd (omega arith)
  get_or-copy_at zero (x ∷ dst) (y ∷ src) (suc i) zero d h h' e = absurd (omega arith)
