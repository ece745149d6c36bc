-- ===== src/Api/Scanner/Ends.antt =====
-- scanner.go: scanString and scanDocument return, and take what they return from the input.
use fastgozero.Prelude.{
  ℕ, ◌+◌, ◌<◌, ◌≡◌, ◌≢◌, refl, sym, ◌∙◌, inl, inr, true, false, ◌==◌, Bool-cases, ==_iff, arith,
  ==-ne_zero,
}
use fastgozero.Api.Token.{TokenType, document}
use fastgozero.Api.Reader.{
  Scanner, ok, read_rune, peek_rune, left, assert_expected, assert_expected_string,
}
use fastgozero.Api.Reader.Laws.{IsValid, position-read_rune, peek_rune_lem}
use fastgozero.Api.Durations.{token_from}
use fastgozero.Api.Durations.Spans.{Reads, read_rune-Reads}
use fastgozero.Api.Scanner.{
  Mode, init_mode, document_half_open, document_open, document_half_close, string_open, run_loop,
  string_round, string_at_delim, string_at_end, document_round, document_at_star, document_at_end,
  document_at_slash, scan_string, scan_document,
}
use fastgozero.Api.Scanner.Loops.{After, mode_loop_post}
use fastgozero.Api.Scanner.Advance.{Reads-self, token_from-Took}
use fastgozero.Api.Scanner.Progress.{Advances, Outcome, fails}

-- What a loop that began at `s` has read: nothing, or something.
abbrev Inside : Scanner → Scanner → Type 0
Inside s u = Reads s u × (s.position < u.position)

reads_on : (s u : Scanner) → Inside s u → u.ch ≢ 0 → Inside s (read_rune u)
reads_on s u (r, lt) h =
    (read_rune-Reads s u r h, omega (arith, position-read_rune u r.follows.valid))

first_read : (s : Scanner) → IsValid s → s.ch ≢ 0 → Inside s (read_rune s)
first_read s v h = (read_rune-Reads s s (Reads-self s v h) h, omega (arith, position-read_rune s v))

closes :
    (tp : TokenType) (s u : Scanner)
    → Inside s u
    → u.ch ≢ 0
    → Advances s (ok (token_from tp s.position (read_rune u))) (read_rune u)
closes tp s u i h =
    let (r, lt) = reads_on s u i h in inr (inr (token_from-Took tp s (read_rune u) r lt))

module _ (delim : ℕ) (tp : TokenType) (s : Scanner) (v : IsValid s) (begins : s.ch ≡ delim)
    (rune_of : delim ≢ 0) where
  abbrev InString : Mode → Scanner → Type 0
  InString init_mode u = u ≡ s
  InString string_open u = Inside s u
  InString _ u = ⊥

  string_round-After :
      (m : Mode) (u : Scanner)
      → IsValid u
      → InString m u
      → After InString (Advances s) u (string_round delim tp s.position m u)
  unfolding string_round string_at_delim string_at_end
  string_round-After init_mode u w i =
      let c : (u.ch == delim) ≡ true = (==_iff u.ch delim).1 (rw i begins) in
      let alive : s.ch ≢ 0 = λ z. rune_of (sym begins ∙ z) in
      rw (c, i) (first_read s v alive, alive)
  string_round-After string_open u w i = elim (Bool-cases (u.ch == delim)) [
    | inl same ↦ rw same (closes tp s u i (==-ne_zero u.ch delim same rune_of))
    | inr other ↦ elim (Bool-cases (u.ch == 0)) [
      | inl last ↦ rw (other, last) (fails s u u _ _ i.0.follows).holds
      | inr more ↦
          let alive : u.ch ≢ 0 = λ z. ground arith in rw (other, more) (reads_on s u i alive, alive)
    ]
  ]
  string_round-After _ u w i = elim i [ ]

  pub scan_string-Outcome : Outcome s (scan_string delim tp s)
  unfolding scan_string run_loop
  scan_string-Outcome = record {
    holds =
        mode_loop_post InString (Advances s) (string_round delim tp s.position) string_round-After
          (left s + 1) init_mode s (omega arith) v refl;
  }

module _ (s : Scanner) (v : IsValid s) (begins : s.ch ≡ b'/') (opens : peek_rune s ≡ b'*') where
  abbrev InDocument : Mode → Scanner → Type 0
  InDocument init_mode u = u ≡ s
  InDocument document_half_open u = Inside s u × (u.ch ≡ b'*')
  InDocument document_open u = Inside s u
  InDocument document_half_close u = Inside s u
  InDocument _ u = ⊥

  star_on : (u : Scanner) → Inside s u → u.ch ≡ b'*' → Inside s (read_rune u) × (u.ch ≢ 0)
  star_on u i h = let alive : u.ch ≢ 0 = λ z. absurd (omega arith) in (reads_on s u i alive, alive)

  document_round-After :
      (m : Mode) (u : Scanner)
      → IsValid u
      → InDocument m u
      → After InDocument (Advances s) u (document_round s.position m u)
  unfolding document_round document_at_star document_at_end document_at_slash assert_expected
      assert_expected_string
  document_round-After init_mode u w i =
      let alive : s.ch ≢ 0 = λ z. absurd (omega arith) in
      let a : (s.ch == b'*') ≡ false = ground arith in
      let b : (s.ch == 0) ≡ false = ground arith in
      let c : (s.ch == b'/') ≡ true = ground arith in
      rw (i, a, b, c) ((first_read s v alive, sym (peek_rune_lem s v) ∙ opens), alive)
  document_round-After document_half_open u w (i, star) =
      let a : (u.ch == b'*') ≡ true = ground arith in rw a (star_on u i star)
  document_round-After document_open u w i = elim (Bool-cases (u.ch == b'*')) [
    | inl star ↦ rw star (star_on u i ((==_iff u.ch b'*').0 star))
    | inr other ↦ elim (Bool-cases (u.ch == 0)) [
      | inl last ↦ rw (other, last) i.0.follows
      | inr more ↦
          let alive : u.ch ≢ 0 = λ z. ground arith in
          elim (Bool-cases (u.ch == b'/')) [
            | inl slash ↦ rw (other, more, slash) (reads_on s u i alive, alive)
            | inr plain ↦ rw (other, more, plain) (reads_on s u i alive, alive)
          ]
    ]
  ]
  document_round-After document_half_close u w i = elim (Bool-cases (u.ch == b'*')) [
    | inl star ↦ rw star (star_on u i ((==_iff u.ch b'*').0 star))
    | inr other ↦ elim (Bool-cases (u.ch == 0)) [
      | inl last ↦ rw (other, last) i.0.follows
      | inr more ↦
          let alive : u.ch ≢ 0 = λ z. ground arith in
          elim (Bool-cases (u.ch == b'/')) [
            | inl slash ↦ rw (other, more, slash) (closes document s u i alive)
            | inr plain ↦ rw (other, more, plain) (reads_on s u i alive, alive)
          ]
    ]
  ]
  document_round-After _ u w i = elim i [ ]

  pub scan_document-Outcome : Outcome s (scan_document s)
  unfolding scan_document run_loop
  scan_document-Outcome = record {
    holds =
        mode_loop_post InDocument (Advances s) (document_round s.position) document_round-After
          (left s + 1) init_mode s (omega arith) v refl;
  }
