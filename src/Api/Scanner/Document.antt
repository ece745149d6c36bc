-- ===== src/Api/Scanner/Document.antt =====
-- scanner.go: where scanDocument ends a document.
use fastgozero.Prelude.{
  ℕ, inl, inr, Bool-cases, ltb, ltb→lt, ◌+◌, ◌-◌, ◌≤◌, ◌<◌, ◌≡◌, ◌≢◌, refl, sym, ◌∙◌, [], ◌∷◌,
  arith,
}
use fastgozero.Api.Token.{document, eof, mul, quo}
use fastgozero.Api.Reader.{Scanner, ok, left, assert_expected, read_rune}
use fastgozero.Api.Reader.Laws.{
  IsValid, advance, rune, advance_zero, ch-advance, rune-lt, advance-read_rune,
}
use fastgozero.Api.Durations.{token_from}
use fastgozero.Api.Scanner.{
  go_on, return, init_mode, document_half_open, document_open, document_half_close, scan_document,
  document_round, document_at_star, document_at_slash, document_at_end,
}
use fastgozero.Api.Scanner.Loops.{
  loop_at, run_loop-loop_at, loop_at_goes, loop_at_returns, loop_at_skips,
}

round_opens :
    (bg : ℕ) (t : Scanner) → t.ch ≡ b'/' → document_round bg init_mode t ≡ go_on document_half_open
unfolding document_round document_at_slash
round_opens bg t h = rw h refl

round_star :
    (bg : ℕ) (t : Scanner)
    → t.ch ≡ b'*'
    → document_round bg document_half_open t ≡ go_on document_open
unfolding document_round document_at_star
round_star bg t h = rw h refl

round_star_again :
    (bg : ℕ) (t : Scanner)
    → t.ch ≡ b'*'
    → document_round bg document_open t ≡ go_on document_half_close
unfolding document_round document_at_star
round_star_again bg t h = rw h refl

round_in_open :
    (bg : ℕ) (t : Scanner)
    → t.ch ≢ b'*'
    → t.ch ≢ 0
    → document_round bg document_open t ≡ go_on document_open
unfolding document_round document_at_slash
round_in_open bg t h k = ground arith

round_in_half_close :
    (bg : ℕ) (t : Scanner)
    → t.ch ≢ b'/'
    → t.ch ≢ 0
    → document_round bg document_half_close t ≡ go_on document_half_close
unfolding document_round document_at_star
round_in_half_close bg t h k = ground arith

round_ends_open :
    (bg : ℕ) (t : Scanner)
    → t.ch ≡ 0
    → document_round bg document_open t ≡ return (assert_expected t eof (mul ∷ [])) t
unfolding document_round document_at_end
round_ends_open bg t h = rw h refl

round_ends_half :
    (bg : ℕ) (t : Scanner)
    → t.ch ≡ 0
    → document_round bg document_half_close t ≡ return (assert_expected t eof (quo ∷ [])) t
unfolding document_round document_at_end
round_ends_half bg t h = rw h refl

round_closes :
    (bg : ℕ) (t : Scanner)
    → t.ch ≡ b'/'
    → document_round bg document_half_close t
      ≡ return (ok (token_from document bg (read_rune t))) (read_rune t)
unfolding document_round document_at_slash
round_closes bg t h = rw h refl

-- A document that begins at the current rune, with no star behind its opening before `a`.
module _ (s : Scanner) (v : IsValid s) (a : ℕ) (begins : s.ch ≡ b'/') (opens : rune s 1 ≡ b'*')
    (behind : 2 ≤ a) (before : (i : ℕ) → 2 ≤ i → i < a → (rune s i ≢ b'*') × (rune s i ≢ 0)) where
  ch_is : (n c : ℕ) → rune s n ≡ c → (advance n s).ch ≡ c
  ch_is n c h = ch-advance n s v ∙ h

  ch_is_not : (n c : ℕ) → rune s n ≢ c → (advance n s).ch ≢ c
  ch_is_not n c h e = h (sym (ch-advance n s v) ∙ e)

  alive-le : (n : ℕ) → rune s n ≢ 0 → n + 1 ≤ left s
  unfolding left
  alive-le n h = omega (arith, rune-lt n s v h)

  a-le : a ≤ left s
  a-le = elim (Bool-cases (ltb 2 a)) [
    | inl more ↦
        let lt = ltb→lt 2 a more in
        omega (arith, alive-le (a - 1) (before (a - 1) (omega arith) (omega arith)).1)
    | inr least ↦
        let e : a ≡ 2 = ground arith in omega (arith, alive-le 1 (λ z. absurd (omega arith)))
  ]

  opened : scan_document s ≡ loop_at (document_round s.position) s a document_open
  unfolding scan_document
  opened =
      run_loop-loop_at (document_round s.position) s
      ∙ loop_at_goes _ s 0 init_mode document_half_open (omega (arith, a-le))
          (rw advance_zero (round_opens s.position s begins))
      ∙ loop_at_goes _ s 1 document_half_open document_open (omega (arith, a-le))
          (round_star s.position (advance 1 s) (ch_is 1 b'*' opens))
      ∙ loop_at_skips _ s 2 a document_open behind a-le (λ i lo hi.
        round_in_open s.position (advance i s) (ch_is_not i b'*' (before i lo hi).0)
          (ch_is_not i 0 (before i lo hi).1))

  pub scan_document_no_star :
      rune s a ≡ 0 → scan_document s ≡ (assert_expected (advance a s) eof (mul ∷ []), advance a s)
  scan_document_no_star h =
      opened
      ∙ loop_at_returns _ s a document_open _ _ a-le
          (round_ends_open s.position (advance a s) (ch_is a 0 h))

  -- The first star stands at `a`, and no slash before `b`.
  module _ (b : ℕ) (star : rune s a ≡ b'*') (further : a < b)
      (between : (i : ℕ) → a < i → i < b → (rune s i ≢ b'/') × (rune s i ≢ 0)) where
    b-le : b ≤ left s
    b-le = elim (Bool-cases (ltb (a + 1) b)) [
      | inl more ↦
          let lt = ltb→lt (a + 1) b more in
          omega (arith, alive-le (b - 1) (between (b - 1) (omega arith) (omega arith)).1)
      | inr least ↦
          let e : b ≡ a + 1 = ground arith in omega (arith, alive-le a (λ z. absurd (omega arith)))
    ]

    half_closed : scan_document s ≡ loop_at (document_round s.position) s b document_half_close
    half_closed =
        opened
        ∙ loop_at_goes _ s a document_open document_half_close a-le
            (round_star_again s.position (advance a s) (ch_is a b'*' star))
        ∙ loop_at_skips _ s (a + 1) b document_half_close (omega arith) b-le (λ i lo hi.
          let away = between i (omega arith) hi in
          round_in_half_close s.position (advance i s) (ch_is_not i b'/' away.0)
            (ch_is_not i 0 away.1))

    -- A document that begins at the current rune and has a star behind its opening, but no slash
    -- behind the star up to the end, gives the error that a slash was expected, at the end.
    scan_document_no_slash :
        rune s b ≡ 0 → scan_document s ≡ (assert_expected (advance b s) eof (quo ∷ []), advance b s)
    scan_document_no_slash h =
        half_closed
        ∙ loop_at_returns _ s b document_half_close _ _ b-le
            (round_ends_half s.position (advance b s) (ch_is b 0 h))

    -- A document that begins at the current rune, whose first star behind the opening stands at `a`,
    -- ends at the first slash behind that star, at `b`, wherever other runes stand between the two,
    -- if no rune 0 comes before it; its token covers all up to that slash.
    pub scan_document_closes :
        rune s b ≡ b'/'
        → scan_document s
          ≡ (ok (token_from document s.position (advance (b + 1) s)), advance (b + 1) s)
    scan_document_closes h = rw (← advance-read_rune b s) (
        half_closed
        ∙ loop_at_returns _ s b document_half_close _ _ b-le
            (round_closes s.position (advance b s) (ch_is b b'/' h)))
