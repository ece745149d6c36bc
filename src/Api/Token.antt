-- ===== src/Api/Token.antt =====
-- tools/fastgoctl/pkg/parser/api/token: token.go and position.go, the tokens of an api file. The
-- types of tokens are constants that iota numbers; `iota` gives the number of each.
pub mod Keywords
mod Tests
use fastgozero.Prelude.{
  ℕ, ◌+◌, Bool, true, false, ◌&&◌, ◌||◌, not, List, [], ◌∷◌, Option, none, some, ◌==◌, ltb,
  if◌then◌else◌,
}
use fastgozero.Prelude.Texts.{Text, codes, text_eq}

pub data TokenType : Type 0 where
  token_bg error_type illegal eof comment document : TokenType
  literal_beg ident int duration string raw_string : TokenType
  path key literal_end operator_beg sub mul : TokenType
  quo assign lparen lbrack lbrace comma : TokenType
  dot rparen rbrace rbrack semicolon colon : TokenType
  ellipsis operator_end golang_keyword_beg break_keyword case_keyword chan_keyword : TokenType
  const_keyword continue_keyword default_keyword defer_keyword else_keyword fallthrough_keyword :
      TokenType
  for_keyword func_keyword go_keyword goto_keyword if_keyword import_keyword : TokenType
  interface_keyword map_keyword package_keyword range_keyword return_keyword select_keyword :
      TokenType
  struct_keyword switch_keyword type_keyword var_keyword golang_keyword_end api_keyword_bg :
      TokenType
  at_doc at_handler at_server any api_keyword_end token_end : TokenType

-- The number of a type, by its place in the list of constants.
unfoldable pub iota : TokenType → ℕ
iota token_bg = 0
iota error_type = 1
iota illegal = 2
iota eof = 3
iota comment = 4
iota document = 5
iota literal_beg = 6
iota ident = 7
iota int = 8
iota duration = 9
iota string = 10
iota raw_string = 11
iota path = 12
iota key = 13
iota literal_end = 14
iota operator_beg = 15
iota sub = 16
iota mul = 17
iota quo = 18
iota assign = 19
iota lparen = 20
iota lbrack = 21
iota lbrace = 22
iota comma = 23
iota dot = 24
iota rparen = 25
iota rbrace = 26
iota rbrack = 27
iota semicolon = 28
iota colon = 29
iota ellipsis = 30
iota operator_end = 31
iota golang_keyword_beg = 32
iota break_keyword = 33
iota case_keyword = 34
iota chan_keyword = 35
iota const_keyword = 36
iota continue_keyword = 37
iota default_keyword = 38
iota defer_keyword = 39
iota else_keyword = 40
iota fallthrough_keyword = 41
iota for_keyword = 42
iota func_keyword = 43
iota go_keyword = 44
iota goto_keyword = 45
iota if_keyword = 46
iota import_keyword = 47
iota interface_keyword = 48
iota map_keyword = 49
iota package_keyword = 50
iota range_keyword = 51
iota return_keyword = 52
iota select_keyword = 53
iota struct_keyword = 54
iota switch_keyword = 55
iota type_keyword = 56
iota var_keyword = 57
iota golang_keyword_end = 58
iota api_keyword_bg = 59
iota at_doc = 60
iota at_handler = 61
iota at_server = 62
iota any = 63
iota api_keyword_end = 64
iota token_end = 65

unfoldable pub same_type : TokenType → TokenType → Bool
unfolding iota
same_type t u = iota t == iota u

-- Type.String: the table of the texts; an entry that the table leaves out is the empty text.
unfoldable pub type_string : TokenType → Text
type_string token_bg = []
type_string error_type = []
type_string illegal = codes "ILLEGAL"
type_string eof = codes "EOF"
type_string comment = codes "COMMENT"
type_string document = codes "DOCUMENT"
type_string literal_beg = []
type_string ident = codes "IDENT"
type_string int = codes "INT"
type_string duration = codes "DURATION"
type_string string = codes "STRING"
type_string raw_string = codes "RAW_STRING"
type_string path = codes "PATH"
type_string key = codes "KEY"
type_string literal_end = []
type_string operator_beg = []
type_string sub = codes "-"
type_string mul = codes "*"
type_string quo = codes "/"
type_string assign = codes "="
type_string lparen = codes "("
type_string lbrack = codes "["
type_string lbrace = codes "{"
type_string comma = codes ","
type_string dot = codes "."
type_string rparen = codes ")"
type_string rbrace = codes "}"
type_string rbrack = codes "]"
type_string semicolon = codes ";"
type_string colon = codes ":"
type_string ellipsis = codes "..."
type_string operator_end = []
type_string golang_keyword_beg = []
type_string break_keyword = codes "break"
type_string case_keyword = codes "case"
type_string chan_keyword = codes "chan"
type_string const_keyword = codes "const"
type_string continue_keyword = codes "continue"
type_string default_keyword = codes "default"
type_string defer_keyword = codes "defer"
type_string else_keyword = codes "else"
type_string fallthrough_keyword = codes "fallthrough"
type_string for_keyword = codes "for"
type_string func_keyword = codes "func"
type_string go_keyword = codes "go"
type_string goto_keyword = codes "goto"
type_string if_keyword = codes "if"
type_string import_keyword = codes "import"
type_string interface_keyword = codes "interface"
type_string map_keyword = codes "map"
type_string package_keyword = codes "package"
type_string range_keyword = codes "range"
type_string return_keyword = codes "return"
type_string select_keyword = codes "select"
type_string struct_keyword = codes "struct"
type_string switch_keyword = codes "switch"
type_string type_keyword = codes "type"
type_string var_keyword = codes "var"
type_string golang_keyword_end = []
type_string api_keyword_bg = []
type_string at_doc = codes "@doc"
type_string at_handler = codes "@handler"
type_string at_server = codes "@server"
type_string any = codes "interface{}"
type_string api_keyword_end = []
type_string token_end = []

pub record Position : Type 0 where
  pub filename : Text
  pub line : ℕ
  pub column : ℕ

pub record Token : Type 0 where
  pub type : TokenType
  pub text : Text
  pub position : Position

-- IllegalPosition, the position of a token that gives none.
abbrev pub illegal_position : Position
illegal_position = record { filename = []; line = 0; column = 0 }

abbrev pub eof_token : Token
eof_token = record { type = eof; text = []; position = illegal_position }

abbrev pub error_token : Token
error_token = record { type = error_type; text = []; position = illegal_position }

unfoldable pub new_illegal_token : ℕ → Position → Token
new_illegal_token b pos = record { type = illegal; text = b ∷ []; position = pos }

unfoldable pub fork : Token → TokenType → Token
fork t tp = record { type = tp; text = t.text; position = t.position }

unfoldable pub is_type : Token → TokenType → Bool
unfolding same_type
is_type t tp = same_type t.type tp

unfoldable pub is_comment : Token → Bool
unfolding is_type
is_comment t = is_type t comment

unfoldable pub is_document : Token → Bool
unfolding is_type
is_document t = is_type t document

unfoldable pub is_valid : Token → Bool
unfolding same_type
is_valid t = not (same_type t.type token_bg)

unfoldable pub is_keyword : Token → Bool
unfolding iota
is_keyword t =
    ltb (iota golang_keyword_beg) (iota t.type) && ltb (iota t.type) (iota golang_keyword_end)

-- Token.Is: whether the text is one of a list.
unfoldable pub is_one_of : Text → List Text → Bool
is_one_of s [] = false
is_one_of s (v ∷ vs) = text_eq s v || is_one_of s vs

abbrev pub http_methods : List Text
http_methods =
    codes "get"
    ∷ codes "head"
    ∷ codes "post"
    ∷ codes "put"
    ∷ codes "patch"
    ∷ codes "delete"
    ∷ codes "connect"
    ∷ codes "options"
    ∷ codes "trace"
    ∷ []

abbrev pub base_data_types : List Text
base_data_types =
    codes "bool"
    ∷ codes "uint8"
    ∷ codes "uint16"
    ∷ codes "uint32"
    ∷ codes "uint64"
    ∷ codes "int8"
    ∷ codes "int16"
    ∷ codes "int32"
    ∷ codes "int64"
    ∷ codes "float32"
    ∷ codes "float64"
    ∷ codes "complex64"
    ∷ codes "complex128"
    ∷ codes "string"
    ∷ codes "int"
    ∷ codes "uint"
    ∷ codes "uintptr"
    ∷ codes "byte"
    ∷ codes "rune"
    ∷ codes "any"
    ∷ []

unfoldable pub is_base_type : Token → Bool
unfolding is_one_of
is_base_type t = is_one_of t.text base_data_types

unfoldable pub is_http_method : Token → Bool
unfolding is_one_of
is_http_method t = is_one_of t.text http_methods

-- keywords: the map as a list of its entries.
abbrev pub keywords : List (Text × TokenType)
keywords =
    (codes "break", break_keyword)
    ∷ (codes "case", case_keyword)
    ∷ (codes "chan", chan_keyword)
    ∷ (codes "const", const_keyword)
    ∷ (codes "continue", continue_keyword)
    ∷ (codes "default", default_keyword)
    ∷ (codes "defer", defer_keyword)
    ∷ (codes "else", else_keyword)
    ∷ (codes "fallthrough", fallthrough_keyword)
    ∷ (codes "for", for_keyword)
    ∷ (codes "func", func_keyword)
    ∷ (codes "go", go_keyword)
    ∷ (codes "goto", goto_keyword)
    ∷ (codes "if", if_keyword)
    ∷ (codes "import", import_keyword)
    ∷ (codes "interface", interface_keyword)
    ∷ (codes "map", map_keyword)
    ∷ (codes "package", package_keyword)
    ∷ (codes "range", range_keyword)
    ∷ (codes "return", return_keyword)
    ∷ (codes "select", select_keyword)
    ∷ (codes "struct", struct_keyword)
    ∷ (codes "switch", switch_keyword)
    ∷ (codes "type", type_keyword)
    ∷ (codes "var", var_keyword)
    ∷ []

unfoldable pub find_text : Text → List (Text × TokenType) → Option TokenType
find_text s [] = none
find_text s ((k, t) ∷ m) = if text_eq s k then some t else find_text s m

unfoldable pub lookup_keyword : Text → Option TokenType
unfolding find_text
lookup_keyword word = find_text word keywords
