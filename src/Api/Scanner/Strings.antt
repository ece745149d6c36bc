-- ===== src/Api/Scanner/Strings.antt =====
-- scanner.go: where scanString ends a string.
use fastgozero.Prelude.{
  ℕ, inl, inr, Bool-cases, ltb, ltb→lt, ◌+◌, ◌-◌, ◌≤◌, ◌<◌, ◌≡◌, ◌≢◌, sym, ◌∙◌, [], ◌∷◌, arith,
}
use fastgozero.Api.Token.{TokenType, eof, type_string}
use fastgozero.Api.Reader.{Scanner, ok, left, assert_expected_string, read_rune}
use fastgozero.Api.Reader.Laws.{
  IsValid, advance, rune, advance_zero, ch-advance, rune-lt, ch-lt, advance-read_rune,
}
use fastgozero.Api.Durations.{token_from}
use fastgozero.Api.Scanner.{
  go_on, return, init_mode, string_open, scan_string, string_round, string_at_delim, string_at_end,
}
use fastgozero.Api.Scanner.Loops.{
  loop_at, run_loop-loop_at, loop_at_goes, loop_at_returns, loop_at_skips,
}

-- The string of type `tp` that begins at the current rune, which is `delim`; there is no other
-- `delim` before `n`.
module _ (delim : ℕ) (tp : TokenType) (s : Scanner) (v : IsValid s) (n : ℕ) (rune_of : delim ≢ 0)
    (begins : s.ch ≡ delim) (behind : 1 ≤ n)
    (before : (i : ℕ) → 1 ≤ i → i < n → (rune s i ≢ delim) × (rune s i ≢ 0)) where
  n-le : n ≤ left s
  unfolding left
  n-le = elim (Bool-cases (ltb 1 n)) [
    | inl more ↦
        let lt = ltb→lt 1 n more in
        omega (arith, rune-lt (n - 1) s v (before (n - 1) (omega arith) (omega arith)).1)
    | inr least ↦
        let e : n ≡ 1 = ground arith in omega (arith, ch-lt s v (λ z. rune_of (sym begins ∙ z)))
  ]

  round_begins :
      (t : Scanner)
      → t.ch ≡ delim
      → string_round delim tp s.position init_mode t ≡ go_on string_open
  unfolding string_round string_at_delim
  round_begins t h = ground arith

  round_inside :
      (t : Scanner)
      → t.ch ≢ delim
      → t.ch ≢ 0
      → string_round delim tp s.position string_open t ≡ go_on string_open
  unfolding string_round
  round_inside t h k = ground arith

  opened : scan_string delim tp s ≡ loop_at (string_round delim tp s.position) s n string_open
  unfolding scan_string
  opened =
      run_loop-loop_at (string_round delim tp s.position) s
      ∙ loop_at_goes _ s 0 init_mode string_open (omega (arith, n-le))
          (rw advance_zero (round_begins s begins))
      ∙ loop_at_skips _ s 1 n string_open behind n-le (λ i lo hi.
        round_inside (advance i s) (λ e. (before i lo hi).0 (sym (ch-advance i s v) ∙ e))
          (λ e. (before i lo hi).1 (sym (ch-advance i s v) ∙ e)))

  round_closes :
      (t : Scanner)
      → t.ch ≡ delim
      → string_round delim tp s.position string_open t
        ≡ return (ok (token_from tp s.position (read_rune t))) (read_rune t)
  unfolding string_round string_at_delim
  round_closes t h = ground arith

  round_ends :
      (t : Scanner)
      → t.ch ≡ 0
      → string_round delim tp s.position string_open t
        ≡ return (assert_expected_string t (type_string eof) ((delim ∷ []) ∷ [])) t
  unfolding string_round string_at_end
  round_ends t h = ground arith

  -- A string that begins at the current rune ends at the next rune that is its delimiter, if no rune
  -- 0 comes before it; its token covers all from one to the other, a backslash before the delimiter
  -- and line breaks included.
  pub scan_string_closes :
      rune s n ≡ delim
      → scan_string delim tp s
        ≡ (ok (token_from tp s.position (advance (n + 1) s)), advance (n + 1) s)
  scan_string_closes h = rw (← advance-read_rune n s) (
      opened
      ∙ loop_at_returns _ s n string_open _ _ n-le
          (round_closes (advance n s) (ch-advance n s v ∙ h)))

  -- A string that begins at the current rune and has no further delimiter up to the end gives the
  -- error that its delimiter was expected, at the end.
  pub scan_string_fails :
      rune s n ≡ 0
      → scan_string delim tp s
        ≡ (assert_expected_string (advance n s) (type_string eof) ((delim ∷ []) ∷ []), advance n s)
  scan_string_fails h =
      opened
      ∙ loop_at_returns _ s n string_open _ _ n-le (round_ends (advance n s) (ch-advance n s v ∙ h))
