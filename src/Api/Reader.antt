-- ===== src/Api/Reader.antt =====
-- tools/fastgoctl/pkg/parser/api/scanner/scanner.go: the state of Scanner, its reading of runes,
-- positions and errors. `lines` holds each position of a line break plus one, since Go starts it
-- with -1. A rune 0 stands for the end of the input, as in the source. `stuck` is not in the source: it
-- is set when a loop runs on for longer than its fuel, and stays set.

pub mod Laws
use fastgozero.Prelude.{
  ℕ, zero, suc, ◌+◌, ◌-◌, ◌<◌, Bool, true, false, ◌&&◌, ◌||◌, List, [], ◌∷◌, ◌++◌, Option, none,
  some, map, ◌==◌, leb, if◌then◌else◌, length, get_or,
}
use fastgozero.Prelude.Texts.{Text, codes, join}
use fastgozero.Api.Token.{TokenType, Token, Position, type_string, new_illegal_token}

pub record Scanner : Type 0 where
  pub filename : Text
  pub size : ℕ
  pub runes : Text
  pub position : ℕ
  pub read_position : ℕ
  pub ch : ℕ
  pub lines : List ℕ
  pub stuck : Bool

-- The result of a scan: a token, an error with the position that it prints and its text, or, for
-- a loop that would not end, `endless`.
pub record ScanError : Type 0 where
  pub position : Position
  pub text : Text

pub data Scanned : Type 0 where
  ok : Token → Scanned
  err : ScanError → Scanned
  endless : Scanned

unfoldable pub read_rune : Scanner → Scanner
read_rune s = record s {
  ch = if leb s.size s.read_position then 0 else get_or s.runes s.read_position 0;
  position = s.read_position;
  read_position = s.read_position + 1;
}

unfoldable pub peek_rune : Scanner → ℕ
peek_rune s = if leb s.size s.read_position then 0 else get_or s.runes s.read_position 0

unfoldable pub line_count : Scanner → ℕ
line_count s = length s.lines

unfoldable pub new_position : Scanner → ℕ → Position
new_position s p = record {
  filename = s.filename;
  line = line_count s;
  column = p + 1 - get_or s.lines (line_count s - 1) 0;
}

unfoldable pub position_at : Scanner → Position
position_at s = new_position s s.position

unfoldable pub new_token : Scanner → TokenType → Token × Scanner
new_token s tp = (record { type = tp; text = s.ch ∷ []; position = position_at s }, read_rune s)

unfoldable pub illegal_token : Scanner → Token × Scanner
illegal_token s = (new_illegal_token s.ch (new_position s s.position), read_rune s)

unfoldable pub is_digit : ℕ → Bool
is_digit b = leb b'0' b && leb b b'9'

unfoldable pub is_letter : ℕ → Bool
is_letter b = (leb b'a' b && leb b b'z') || (leb b'A' b && leb b b'Z')

unfoldable pub is_identifier_letter : ℕ → Bool
unfolding is_letter
is_identifier_letter b = if is_letter b then true else b == b'_'

unfoldable pub is_blank : ℕ → Bool
is_blank b = b == b' ' || b == b'\t' || b == b'\r' || b == 12 || b == 11 || b == b'\n'

-- isWhiteSpace notes a line break at the current position.
unfoldable pub is_white_space : Scanner → ℕ → Bool × Scanner
is_white_space s b =
    (is_blank b, if b == b'\n' then record s { lines = s.lines ++ (s.position + 1) ∷ [] } else s)

-- A loop that reads on while a test holds. One round for each rune left and one for the end of the
-- input are enough where the rune 0 fails the test; else the loop would not end.
unfoldable pub left : Scanner → ℕ
left s = s.size - s.position

unfoldable pub read_while : ℕ → (ℕ → Bool) → Scanner → Scanner
read_while zero test s = record s { stuck = true }
read_while (suc fuel) test s = elim (test s.ch) [
  | true ↦ read_while fuel test (read_rune s)
  | false ↦ s
]

unfoldable pub skip_loop : ℕ → Scanner → Scanner
skip_loop zero s = record s { stuck = true }
skip_loop (suc fuel) s =
    let (white, s') = is_white_space s s.ch in
    elim white [ true ↦ skip_loop fuel (read_rune s') | false ↦ s' ]

unfoldable pub skip_white_space : Scanner → Scanner
skip_white_space s = skip_loop (left s + 1) s

abbrev quote : Text → Text
quote s = codes "'" ++ (s ++ codes "'")

-- assertExpectedString and assertExpected: the error with its text.
unfoldable pub assert_expected_string : Scanner → Text → List Text → Scanned
assert_expected_string s actual expected = err (record {
  position = position_at s;
  text =
      codes "expected "
      ++ (join (codes " | ") (map quote expected) ++ (codes ", got " ++ quote actual));
})

unfoldable pub assert_expected : Scanner → TokenType → List TokenType → Scanned
assert_expected s actual expected =
    assert_expected_string s (type_string actual) (map type_string expected)

-- NewScanner on the runes of its data; `base` is filepath.Base. `none` is missingInput.
unfoldable pub new_scanner : (Text → Text) → Text → Text → Option Scanner
new_scanner base filename [] = none
new_scanner base filename (r ∷ rs) = some (
    read_rune (record {
      filename = base filename;
      size = length (r ∷ rs);
      runes = r ∷ rs;
      position = 0;
      read_position = 0;
      ch = 0;
      lines = 0 ∷ [];
      stuck = false;
    }))
