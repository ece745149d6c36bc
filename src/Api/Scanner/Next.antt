-- ===== src/Api/Scanner/Next.antt =====
-- scanner.go: NextToken skips white space, and takes what it returns from the input behind it.
use fastgozero.Prelude.{
  ℕ, zero, suc, ◌+◌, ◌≤◌, ◌<◌, ◌≡◌, ◌≢◌, refl, inl, inr, true, false, ◌==◌, get_or, Bool-cases,
  ==_iff, arith, if_both, if◌then◌else◌, some, [], ◌∷◌,
}
use fastgozero.Prelude.Texts.{Text}
use fastgozero.Api.Token.{Token, string, raw_string, quo, eof_token, same_type, token_bg}
use fastgozero.Api.Reader.{
  Scanner, ok, read_rune, peek_rune, is_blank, is_white_space, left, skip_loop, skip_white_space,
  new_scanner, new_token,
}
use fastgozero.Api.Reader.Laws.{IsValid, ch-lt, read_rune-IsValid}
use fastgozero.Api.Scanner.{
  token, scan_other, scan_dots, operator_of, scan_slash, scan_token, next_token,
}
use fastgozero.Api.Scanner.Advance.{Took, new_token-Took, scan_line_comment-Took, scan_other-Took}
use fastgozero.Api.Scanner.Progress.{
  Advances, Outcome, Took-Outcome, scan_dots-Took, scan_at-Outcome,
}
use fastgozero.Api.Scanner.Ends.{scan_string-Outcome, scan_document-Outcome}

pub new_scanner-IsValid :
    (base : Text → Text) (filename runes : Text) (s : Scanner)
    → new_scanner base filename runes ≡ some s
    → IsValid s
unfolding new_scanner read_rune
new_scanner-IsValid base filename [] s h = cc
new_scanner-IsValid base filename (r ∷ rs) s h = ground arith

-- `t` is `s` with the white space before the current rune skipped.
pub record Skips (s t : Scanner) : Type 0 where
  pub same_file : t.filename ≡ s.filename
  pub same_size : t.size ≡ s.size
  pub same_runes : t.runes ≡ s.runes
  pub later : s.position ≤ t.position
  pub valid : IsValid t
  pub blank : (i : ℕ) → s.position ≤ i → i < t.position → is_blank (get_or s.runes i 0) ≡ true
  pub ended : is_blank t.ch ≡ false

-- One round: isWhiteSpace, with the line that it notes, and a read.
noted : Scanner → Scanner
noted s = read_rune (is_white_space s s.ch).1

noted-IsValid : (s : Scanner) → IsValid s → IsValid (noted s)
unfolding noted is_white_space
noted-IsValid s v = elim (Bool-cases (s.ch == b'\n')) [
  | inl line ↦ rw line (read_rune-IsValid _ (ground arith))
  | inr other ↦ rw other (read_rune-IsValid s v)
]

noted_same :
    (s : Scanner)
    → IsValid s
    → ((noted s).filename ≡ s.filename)
      × ((noted s).size ≡ s.size)
      × ((noted s).runes ≡ s.runes)
      × ((noted s).position ≡ s.position + 1)
unfolding noted is_white_space read_rune
noted_same s v = ground arith

blank_rune : (c : ℕ) → is_blank c ≡ true → c ≢ 0
unfolding is_blank
blank_rune c h z = ground arith

skip_more :
    (fuel : ℕ) (s : Scanner)
    → is_blank s.ch ≡ true
    → skip_loop (suc fuel) s ≡ skip_loop fuel (noted s)
unfolding skip_loop noted is_white_space
skip_more fuel s white = rw (white, skip_loop) refl

skip_done : (fuel : ℕ) (s : Scanner) → is_blank s.ch ≡ false → skip_loop (suc fuel) s ≡ s
unfolding skip_loop is_white_space
skip_done fuel s dark =
    let c : (s.ch == b'\n') ≡ false = unfold is_blank in ground arith in
    rw (dark, c, skip_loop) refl

no_blank : (s : Scanner) → IsValid s → is_blank s.ch ≡ false → Skips s s
no_blank s v dark = record {
  same_file = refl;
  same_size = refl;
  same_runes = refl;
  later = omega arith;
  valid = v;
  blank = λ i lo hi. absurd (omega arith);
  ended = dark;
}

one_blank : (s t : Scanner) → IsValid s → is_blank s.ch ≡ true → Skips (noted s) t → Skips s t
one_blank s t v white r =
    let (file, size, runes, position) = noted_same s v in
    record {
      same_file = cc;
      same_size = cc;
      same_runes = cc;
      later = omega (arith, r.later);
      valid = r.valid;
      blank = λ i lo hi. elim (Bool-cases (s.position == i)) [
        | inl here ↦ let e = (==_iff s.position i).0 here in rw (← e, ← v.current) white
        | inr further ↦ rw (← runes) (r.blank i (ground arith) hi)
      ];
      ended = r.ended;
    }

skip_loop_lem : (fuel : ℕ) (s : Scanner) → IsValid s → left s < fuel → Skips s (skip_loop fuel s)
unfolding left
skip_loop_lem zero s v h = absurd (omega arith)
skip_loop_lem (suc fuel) s v h = elim (Bool-cases (is_blank s.ch)) [
  | inl white ↦
      let alive : s.ch ≢ 0 = λ z. blank_rune s.ch white z in
      let ahead = ch-lt s v alive in
      let (file, size, runes, position) = noted_same s v in
      rw (skip_more fuel s white)
        (one_blank s _ v white (skip_loop_lem fuel (noted s) (noted-IsValid s v) (omega arith)))
  | inr dark ↦ rw (skip_done fuel s dark) (no_blank s v dark)
]

pub skip_white_space-Skips : (s : Scanner) → IsValid s → Skips s (skip_white_space s)
unfolding skip_white_space
skip_white_space-Skips s v = skip_loop_lem (left s + 1) s v (omega arith)

token-Outcome : (s : Scanner) (r : Token × Scanner) → Took s r → Outcome s (token r)
token-Outcome s (tok, t) h = Took-Outcome s t tok h

scan_slash-Outcome : (s : Scanner) → IsValid s → s.ch ≡ b'/' → Outcome s (scan_slash s)
unfolding scan_slash
scan_slash-Outcome s v h =
    if_both (Outcome s) (peek_rune s == b'/')
      (λ line. token-Outcome s _ (scan_line_comment-Took s v h))
      (λ _.
        if_both (Outcome s) (peek_rune s == b'*')
          (λ star. scan_document-Outcome s v h ((==_iff (peek_rune s) b'*').0 star))
          (λ _. token-Outcome s _ (new_token-Took quo s v (λ z. absurd (omega arith)))))

at_end : (s : Scanner) → (s.ch == 0) ≡ true → Outcome s (ok eof_token, s)
at_end s h = record { holds = inl (refl, (==_iff s.ch 0).0 h, refl) }

default-Outcome :
    (s : Scanner)
    → IsValid s
    → s.ch ≢ 0
    → Outcome s (
        if same_type (operator_of s.ch) token_bg
        then token (scan_other s)
        else token (new_token s (operator_of s.ch)))
default-Outcome s v alive =
    if_both (Outcome s) (same_type (operator_of s.ch) token_bg)
      (λ _. token-Outcome s (scan_other s) (scan_other-Took s v))
      (λ _.
        token-Outcome s (new_token s (operator_of s.ch))
          (new_token-Took (operator_of s.ch) s v alive))

pub scan_token-Outcome : (s : Scanner) → IsValid s → Outcome s (scan_token s)
unfolding scan_token
scan_token-Outcome s v =
    let is = λ (c : ℕ). (==_iff s.ch c).0 in
    if_both (Outcome s) (s.ch == b'/') (λ slash. scan_slash-Outcome s v (is b'/' slash))
      λ _.
        if_both (Outcome s) (s.ch == b'.')
          (λ point. token-Outcome s (scan_dots s) (scan_dots-Took s v (is b'.' point)))
          λ _.
            if_both (Outcome s) (s.ch == b'@') (λ sign. scan_at-Outcome s v (is b'@' sign))
              λ _.
                if_both (Outcome s) (s.ch == b'"')
                  (λ quote.
                    scan_string-Outcome b'"' string s v (is b'"' quote) (λ z. absurd (omega arith)))
                  λ _.
                    if_both (Outcome s) (s.ch == b'`')
                      (λ tick.
                        scan_string-Outcome b'`' raw_string s v (is b'`' tick)
                          (λ z. absurd (omega arith)))
                      λ _.
                        if_both (Outcome s) (s.ch == 0) (λ last. at_end s last)
                          λ more. default-Outcome s v (λ z. ground arith)

-- NextToken on a valid scanner skips the white space, all of it and nothing else. Then it gives an
-- error; or at the end the token of the end; or, for a sign @ that is the last rune, an illegal
-- token, and reads nothing; or it reads on and gives a token that is illegal, or a single point, or
-- has as its text exactly what was read, within the input. Each loop of it ends: none is
-- still running after a round for each rune left and one more.
pub next_token-Advances :
    (s : Scanner)
    → IsValid s
    → Skips s (skip_white_space s) × Advances (skip_white_space s) (next_token s).0 (next_token s).1
unfolding next_token
next_token-Advances s v =
    let k = skip_white_space-Skips s v in
    (k, (scan_token-Outcome (skip_white_space s) k.valid).holds)
