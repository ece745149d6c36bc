-- ===== src/Prelude/Texts.antt =====
-- Texts as lists of code points: literals, comparison, and Go's slices and loops over a text.
use Prim.Native.Char.{code}
use Prim.Native.String.{String}
use Prim.Native.Nat.{ℕ, zero, suc, ◌+◌, ◌-◌, ◌<◌}
use mathlib.Core.Path.{◌≡◌, refl}
use mathlib.Core.Bool.{Bool, true, false, ◌&&◌}
use mathlib.Core.List.{List, [], ◌∷◌, ◌++◌}
use native.Mathlib.Omega.{arith}
use fastgozero.Prelude.Tests.{◌==◌}
use fastgozero.Prelude.Lists.{take, drop, length, get_or}

abbrev pub Text : Type 0
Text = List ℕ

-- The code points of a literal.
abbrev pub codes : String → Text
codes String.[] = []
codes (String.◌∷◌ c s) = code c ∷ codes s

unfoldable pub text_eq : Text → Text → Bool
text_eq [] [] = true
text_eq [] (d ∷ k) = false
text_eq (c ∷ j) [] = false
text_eq (c ∷ j) (d ∷ k) = c == d && text_eq j k

pub text_eq_self : (s : Text) → text_eq s s ≡ true
unfolding text_eq
text_eq_self [] = refl
text_eq_self (c ∷ s) = ground (arith, text_eq_self s)

pub text_eq→eq : (s t : Text) → text_eq s t ≡ true → s ≡ t
unfolding text_eq
text_eq→eq [] [] h = refl
text_eq→eq [] (d ∷ k) h = cc
text_eq→eq (c ∷ j) [] h = cc
text_eq→eq (c ∷ j) (d ∷ k) h = ground (arith, text_eq→eq j k)

-- Go's `xs[lo:hi]`.
abbrev pub slice : ℕ → ℕ → Text → Text
slice lo hi xs = take (hi - lo) (drop lo xs)

-- strings.Join.
unfoldable pub join : Text → List Text → Text
join sep [] = []
join sep (s ∷ []) = s
join sep (s ∷ t ∷ r) = s ++ (sep ++ join sep (t ∷ r))

pub slice_empty : (i : ℕ) (xs : Text) → slice i i xs ≡ []
slice_empty i xs = rw (let e : i - i ≡ 0 = omega arith in e) refl

-- A slice begins with the rune at its lower end.
pub slice_first :
    (i j : ℕ) (xs : Text)
    → i < j
    → i < length xs
    → slice i j xs ≡ get_or xs i 0 ∷ slice (i + 1) j xs
slice_first i j [] h l = absurd (omega arith)
slice_first zero zero (x ∷ xs) h l = elim h [ ]
slice_first (suc i) zero (x ∷ xs) h l = elim h [ ]
slice_first zero (suc j) (x ∷ xs) h l =
    let e : suc j - 0 ≡ suc j = omega arith in
    let f : suc j - (0 + 1) ≡ j = omega arith in rw (e, f) refl
slice_first (suc i) (suc j) (x ∷ xs) h l =
    let e : suc j - suc i ≡ j - i = omega arith in
    let f : suc j - (suc i + 1) ≡ j - (i + 1) = omega arith in
    let g : suc i + 1 ≡ suc (i + 1) = omega arith in
    rw (e, f, g) (slice_first i j xs (omega arith) (omega arith))
