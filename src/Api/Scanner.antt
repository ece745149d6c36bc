-- ===== src/Api/Scanner.antt =====
-- scanner.go: NextToken and the scans of strings, documents, comments, names and annotations.
pub mod Loops
pub mod Document
pub mod Strings
pub mod Advance
pub mod Progress
pub mod Ends
pub mod Next
mod Tests
use fastgozero.Prelude.{
  ℕ, zero, suc, ◌+◌, Bool, true, false, ◌&&◌, ◌||◌, not, [], ◌∷◌, ◌++◌, ◌==◌, if◌then◌else◌,
}
use fastgozero.Prelude.Texts.{Text, codes, slice, text_eq}
use fastgozero.Api.Token
use fastgozero.Api.Token.{
  TokenType, Token, type_string, new_illegal_token, eof_token, eof, mul, quo, ident, key, any,
  string, raw_string, document, ellipsis, dot, at_doc, at_handler, at_server,
}
use fastgozero.Api.Reader.{
  Scanner, Scanned, ok, err, endless, read_rune, peek_rune, new_position, position_at, new_token,
  is_letter, is_digit, is_identifier_letter, left, read_while, skip_white_space,
  assert_expected_string, assert_expected,
}
use fastgozero.Api.Durations.{token_from, scan_int_or_duration}

pub data Mode : Type 0 where
  init_mode document_half_open document_open document_half_close document_close : Mode
  string_open string_close : Mode

-- One round of the loop of scanString or scanDocument: it goes on to the next rune, in a mode, or
-- returns.
pub data Round : Type 0 where
  go_on : Mode → Round
  return : Scanned → Scanner → Round

unfoldable pub mode_loop : ℕ → (Mode → Scanner → Round) → Mode → Scanner → Scanned × Scanner
mode_loop zero round mode s = (endless, s)
mode_loop (suc fuel) round mode s = elim (round mode s) [
  | go_on m ↦ mode_loop fuel round m (read_rune s)
  | return r s' ↦ (r, s')
]

-- The runes left and the end of the input.
unfoldable pub run_loop : (Mode → Scanner → Round) → Scanner → Scanned × Scanner
run_loop round s = mode_loop (left s + 1) round init_mode s

unfoldable pub string_at_delim : TokenType → ℕ → Mode → Scanner → Round
string_at_delim tp bg init_mode s = go_on string_open
string_at_delim tp bg string_open s = let s' = read_rune s in return (ok (token_from tp bg s')) s'
string_at_delim tp bg mode s = go_on mode

unfoldable pub string_at_end : ℕ → TokenType → ℕ → Mode → Scanner → Round
string_at_end delim tp bg init_mode s = return (assert_expected s eof (tp ∷ [])) s
string_at_end delim tp bg string_open s =
    return (assert_expected_string s (type_string eof) ((delim ∷ []) ∷ [])) s
string_at_end delim tp bg string_close s = return (ok (token_from tp bg s)) s
string_at_end delim tp bg mode s = go_on mode

unfoldable pub string_round : ℕ → TokenType → ℕ → Mode → Scanner → Round
string_round delim tp bg mode s =
    if s.ch == delim
    then string_at_delim tp bg mode s
    else if s.ch == 0
    then string_at_end delim tp bg mode s
    else go_on mode

unfoldable pub scan_string : ℕ → TokenType → Scanner → Scanned × Scanner
scan_string delim tp s = run_loop (string_round delim tp s.position) s

unfoldable pub document_at_star : Mode → Mode
document_at_star document_half_open = document_open
document_at_star document_open = document_half_close
document_at_star document_half_close = document_half_close
document_at_star mode = mode

unfoldable pub document_at_end : Mode → Scanner → Round
document_at_end init_mode s = return (assert_expected s eof (mul ∷ [])) s
document_at_end document_half_open s = return (assert_expected s eof (mul ∷ [])) s
document_at_end document_open s = return (assert_expected s eof (mul ∷ [])) s
document_at_end document_half_close s = return (assert_expected s eof (quo ∷ [])) s
document_at_end mode s = go_on mode

unfoldable pub document_at_slash : ℕ → Mode → Scanner → Round
document_at_slash bg init_mode s = go_on document_half_open
document_at_slash bg document_half_open s = return (assert_expected s quo (mul ∷ [])) s
document_at_slash bg document_half_close s =
    let s' = read_rune s in return (ok (token_from document bg s')) s'
document_at_slash bg mode s = go_on mode

unfoldable pub document_round : ℕ → Mode → Scanner → Round
document_round bg mode s =
    if s.ch == b'*'
    then go_on (document_at_star mode)
    else if s.ch == 0
    then document_at_end mode s
    else if s.ch == b'/'
    then document_at_slash bg mode s
    else go_on mode

unfoldable pub scan_document : Scanner → Scanned × Scanner
scan_document s = run_loop (document_round s.position) s

abbrev in_line : ℕ → Bool
in_line c = not (c == b'\n') && not (c == 0)

unfoldable pub scan_line_comment : Scanner → Token × Scanner
scan_line_comment s =
    let s' = read_while (left s + 1) in_line s in (token_from Token.comment s.position s', s')

unfoldable pub scan_letter_set : Scanner → Text × Scanner
scan_letter_set s =
    let s' = read_while (left s + 1) is_letter s in (slice s.position s'.position s'.runes, s')

-- A token of a fixed text.
unfoldable pub fixed_token : TokenType → Text → ℕ → Scanner → Token
fixed_token tp text bg s = record { type = tp; text = text; position = new_position s bg }

-- The end of scanAt, by the letters behind the sign.
unfoldable pub at_letters : ℕ → Text → Scanner → Scanned × Scanner
at_letters bg letters s =
    if text_eq letters (codes "handler")
    then (ok (fixed_token at_handler (codes "@handler") bg s), s)
    else if text_eq letters (codes "server")
    then (ok (fixed_token at_server (codes "@server") bg s), s)
    else if text_eq letters (codes "doc")
    then (ok (fixed_token at_doc (codes "@doc") bg s), s)
    else (
      assert_expected_string s (b'@' ∷ letters)
          (type_string at_doc ∷ type_string at_handler ∷ type_string at_server ∷ []),
      s,
    )

unfoldable pub scan_at : Scanner → Scanned × Scanner
scan_at s =
    let peek = peek_rune s in
    if not (is_letter peek)
    then (if peek == 0
        then (ok (new_illegal_token s.ch (position_at s)), s)
        else (assert_expected_string s (peek ∷ []) (type_string ident ∷ []), s))
    else (let (letters, s') = scan_letter_set (read_rune s) in at_letters s.position letters s')

abbrev pub in_ident : ℕ → Bool
in_ident c = is_identifier_letter c || is_digit c

unfoldable pub scan_ident : Scanner → Token × Scanner
scan_ident s =
    let s1 = read_while (left s + 1) in_ident s in
    let name = slice s.position s1.position s1.runes in
    if s1.ch == b':'
    then (let s2 = read_rune s1 in (token_from key s.position s2, s2))
    else if text_eq name (codes "interface") && s1.ch == b'{' && peek_rune s1 == b'}'
    then (let s3 = read_rune (read_rune s1) in (token_from any s.position s3, s3))
    else (token_from ident s.position s1, s1)

abbrev token : Token × Scanner → Scanned × Scanner
token (t, s) = (ok t, s)

-- NextToken, case '.'.
unfoldable pub scan_dots : Scanner → Token × Scanner
scan_dots s =
    if not (peek_rune s == b'.')
    then new_token s dot
    else (let s1 = read_rune s in
        if not (peek_rune s1 == b'.')
        then new_token s1 dot
        else (let s3 = read_rune (read_rune s1) in
            (fixed_token ellipsis (codes "...") s.position s3, s3)))

-- NextToken, the case of a slash.
unfoldable pub scan_slash : Scanner → Scanned × Scanner
scan_slash s =
    if peek_rune s == b'/'
    then token (scan_line_comment s)
    else if peek_rune s == b'*'
    then scan_document s
    else token (new_token s quo)

-- NextToken, the default case.
unfoldable pub scan_other : Scanner → Token × Scanner
scan_other s =
    if is_identifier_letter s.ch
    then scan_ident s
    else if is_digit s.ch
    then scan_int_or_duration s
    else (new_illegal_token s.ch (new_position s s.position), read_rune s)

-- The cases of NextToken that are one rune.
unfoldable pub operator_of : ℕ → TokenType
operator_of c =
    if c == b'-'
    then Token.sub
    else if c == b'*'
    then Token.mul
    else if c == b'('
    then Token.lparen
    else if c == b'['
    then Token.lbrack
    else if c == b'{'
    then Token.lbrace
    else if c == b','
    then Token.comma
    else if c == b')'
    then Token.rparen
    else if c == b']'
    then Token.rbrack
    else if c == b'}'
    then Token.rbrace
    else if c == b';'
    then Token.semicolon
    else if c == b':'
    then Token.colon
    else if c == b'='
    then Token.assign
    else Token.token_bg

-- The switch of NextToken, after the white space.
unfoldable pub scan_token : Scanner → Scanned × Scanner
scan_token s =
    if s.ch == b'/'
    then scan_slash s
    else if s.ch == b'.'
    then token (scan_dots s)
    else if s.ch == b'@'
    then scan_at s
    else if s.ch == b'"'
    then scan_string b'"' string s
    else if s.ch == b'`'
    then scan_string b'`' raw_string s
    else if s.ch == 0
    then (ok eof_token, s)
    else if Token.same_type (operator_of s.ch) Token.token_bg
    then token (scan_other s)
    else token (new_token s (operator_of s.ch))

unfoldable pub next_token : Scanner → Scanned × Scanner
next_token s = scan_token (skip_white_space s)
