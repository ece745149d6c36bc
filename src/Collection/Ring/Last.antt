-- ===== src/Collection/Ring/Last.antt =====
-- The last elements of a list, which Take of core/collection/ring.go returns.
use fastgozero.Prelude.{
  ℕ, suc, ◌+◌, ◌-◌, ◌≤◌, ◌<◌, ◌≡◌, ap, sym, ◌∙◌, List, [], ◌∷◌, ◌++◌, arith, length, drop,
  length-append, length-drop, drop-append_left, drop-drop,
}

-- The last `n` elements of a list, all of them if it is shorter.
unfoldable pub last_n {ℓ} : {A : Type ℓ} → ℕ → List A → List A
last_n n l = drop (length l - n) l

module _ {ℓ} {A : Type ℓ} where
  pub last_n_short : (n : ℕ) (l : List A) → length l ≤ n → last_n n l ≡ l
  unfolding last_n
  last_n_short n l h = ap (λ k. drop k l) none_dropped
    where
      none_dropped : length l - n ≡ 0
      none_dropped = omega arith

  pub last_n_full : (x : A) (l : List A) → last_n (length l) (x ∷ l) ≡ l
  unfolding last_n
  last_n_full x l = ap (λ k. drop k (x ∷ l)) one
    where
      one : suc (length l) - length l ≡ 1
      one = omega arith

  -- To keep `n` after one more element, the last `n` are all that matter.
  pub last_n-snoc :
      (n : ℕ) (l : List A) (v : A)
      → 0 < n
      → last_n n (last_n n l ++ (v ∷ [])) ≡ last_n n (l ++ (v ∷ []))
  unfolding last_n
  last_n-snoc n l v h =
      ap (λ k. drop k (drop a l ++ (v ∷ []))) outer
      ∙ ap (drop b) (sym (drop-append_left a l (v ∷ []) (omega arith)))
      ∙ drop-drop b a (l ++ (v ∷ []))
      ∙ ap (λ k. drop k (l ++ (v ∷ []))) both
    where
      a : ℕ
      a = length l - n

      b : ℕ
      b = (length l - a) + 1 - n

      outer : length (drop a l ++ (v ∷ [])) - n ≡ b
      outer = omega (arith, length-append (drop a l) (v ∷ []), length-drop a l)

      both : a + b ≡ length (l ++ (v ∷ [])) - n
      both = omega (arith, length-append l (v ∷ []))
