-- ===== src/Api/Scanner/Tests.antt =====
-- Runs of the scanner, and the theorems at inputs.
use fastgozero.Prelude.{
  false, ℕ, zero, suc, ◌+◌, ◌≤◌, ◌<◌, ◌≡◌, ◌≢◌, refl, [], ◌∷◌, some, length, arith,
}
use fastgozero.Prelude.Texts.{Text, codes}
use fastgozero.Api.Token.{string, document, eof, type_string}
use fastgozero.Api.Reader.{
  Scanner, ok, new_scanner, read_rune, assert_expected_string, skip_white_space,
}
use fastgozero.Api.Reader.Laws.{advance, rune}
use fastgozero.Api.Durations.{token_from}
use fastgozero.Api.Scanner.{scan_document, scan_string, next_token}
use fastgozero.Api.Scanner.Document.{scan_document_closes}
use fastgozero.Api.Scanner.Strings.{scan_string_closes, scan_string_fails}
use fastgozero.Api.Scanner.Progress.{Advances}
use fastgozero.Api.Scanner.Next.{Skips, next_token-Advances}

-- A scanner at the start of a text.
abbrev at_start : ℕ → Text → Scanner
at_start c rest = record {
  filename = [];
  size = length (c ∷ rest);
  runes = c ∷ rest;
  position = 0;
  read_position = 1;
  ch = c;
  lines = 0 ∷ [];
  stuck = false;
}

new_scanner_start : new_scanner (λ b. b) [] (codes "ab") ≡ some (at_start b'a' (codes "b"))
unfolding new_scanner read_rune
new_scanner_start = refl

-- A document with a slash after a star: it ends there.
abbrev remark : Scanner
remark = at_start b'/' (codes "* a*b/c */")

remark_before : (i : ℕ) → 2 ≤ i → i < 4 → (rune remark i ≢ b'*') × (rune remark i ≢ 0)
unfolding rune
remark_before (suc (suc zero)) lo hi = (λ e. absurd (omega arith), λ e. absurd (omega arith))
remark_before (suc (suc (suc zero))) lo hi = (λ e. absurd (omega arith), λ e. absurd (omega arith))
remark_before i lo hi = absurd (omega arith)

remark_between : (i : ℕ) → 4 < i → i < 6 → (rune remark i ≢ b'/') × (rune remark i ≢ 0)
unfolding rune
remark_between (suc (suc (suc (suc (suc zero))))) lo hi =
    (λ e. absurd (omega arith), λ e. absurd (omega arith))
remark_between i lo hi = absurd (omega arith)

scan_document_closes_example :
    scan_document remark
    ≡ (ok (token_from document remark.position (advance (6 + 1) remark)), advance (6 + 1) remark)
unfolding rune
scan_document_closes_example =
    scan_document_closes remark
      (record { sized = refl; next = refl; current = refl; not_stuck = refl }) 4 refl refl
      (omega arith) remark_before 6 refl (omega arith) remark_between refl

-- The text of that document ends before the `c`.
remark_text : (token_from document 0 (advance 7 remark)).text ≡ codes "/* a*b/"
unfolding token_from advance read_rune
remark_text = refl

-- A string and one that is not closed.
abbrev quoted : Scanner
quoted = at_start b'"' (codes "a\" b")

abbrev unquoted : Scanner
unquoted = at_start b'"' (codes "a")

quoted_before : (i : ℕ) → 1 ≤ i → i < 2 → (rune quoted i ≢ b'"') × (rune quoted i ≢ 0)
unfolding rune
quoted_before (suc zero) lo hi = (λ e. absurd (omega arith), λ e. absurd (omega arith))
quoted_before i lo hi = absurd (omega arith)

unquoted_before : (i : ℕ) → 1 ≤ i → i < 2 → (rune unquoted i ≢ b'"') × (rune unquoted i ≢ 0)
unfolding rune
unquoted_before (suc zero) lo hi = (λ e. absurd (omega arith), λ e. absurd (omega arith))
unquoted_before i lo hi = absurd (omega arith)

scan_string_closes_example :
    scan_string b'"' string quoted
    ≡ (ok (token_from string quoted.position (advance (2 + 1) quoted)), advance (2 + 1) quoted)
unfolding rune
scan_string_closes_example =
    scan_string_closes b'"' string quoted
      (record { sized = refl; next = refl; current = refl; not_stuck = refl }) 2
      (λ e. absurd (omega arith)) refl (omega arith) quoted_before refl

scan_string_fails_example : scan_string b'"' string unquoted ≡ (
  assert_expected_string (advance 2 unquoted) (type_string eof) ((b'"' ∷ []) ∷ []),
  advance 2 unquoted,
)
unfolding rune
scan_string_fails_example =
    scan_string_fails b'"' string unquoted
      (record { sized = refl; next = refl; current = refl; not_stuck = refl }) 2
      (λ e. absurd (omega arith)) refl (omega arith) unquoted_before refl

-- White space and a raw string over two lines.
abbrev two_lines : Scanner
two_lines = at_start b'\n' (codes " `a\nb` }")

next_token-Advances_example :
    Skips two_lines (skip_white_space two_lines)
    × Advances (skip_white_space two_lines) (next_token two_lines).0 (next_token two_lines).1
next_token-Advances_example =
    next_token-Advances two_lines
      (record { sized = refl; next = refl; current = refl; not_stuck = refl })
