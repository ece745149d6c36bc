-- ===== src/Api/Comments.antt =====
-- tools/fastgoctl/pkg/parser/api/parser/parser.go: how Parser reads its tokens (init, nextToken), with
-- the comments between them. A node is kept with its token and two groups of comments; the nodes are
-- a list, the newest first, for a map by token.
pub mod Ends
mod Tests
use fastgozero.Prelude.{
  ℕ, zero, suc, ◌+◌, Bool, true, false, ◌&&◌, ◌||◌, List, [], ◌∷◌, ◌++◌, Option, none, some, ◌==◌,
  if◌then◌else◌,
}
use fastgozero.Prelude.Texts.{Text, text_eq}
use fastgozero.Api.Token
use fastgozero.Api.Token.{
  TokenType, Token, same_type, is_comment, is_document, is_valid, error_token, eof,
}
use fastgozero.Api.Reader.{Scanner, Scanned, ok, err, endless, ScanError, left}
use fastgozero.Api.Scanner.{next_token}

pub record TokenNode : Type 0 where
  pub token : Token
  pub head_comment_group : List Token
  pub leading_comment_group : List Token

pub record Parser : Type 0 where
  pub scanner : Scanner
  pub errors : List ScanError
  pub cur_tok : Token
  pub peek_tok : Token
  pub head_comment_group : List Token
  pub stmts : List Token
  pub node : List TokenNode

-- What an expected token is given by: its type or its text.
pub data Expected : Type 0 where
  type : TokenType → Expected
  text : Text → Expected

unfoldable pub matches : Token → Expected → Bool
matches tok (type tp) = same_type tok.type tp
matches tok (text s) = text_eq tok.text s

unfoldable pub token_is : Token → List Expected → Bool
token_is tok [] = false
token_is tok (e ∷ es) = matches tok e || token_is tok es

-- The end of the loop over comments: a token, with the comments on the line of the current token and
-- the others; or an error, with the others; `stalled` stands for a loop that would not end.
pub data Fetched : Type 0 where
  fetched : Token → List Token → List Token → Scanner → Fetched
  failed : ScanError → List Token → Scanner → Fetched
  stalled : Fetched

unfoldable pub on_line : Token → Option ℕ → Bool
on_line tok none = false
on_line tok (some line) = tok.position.line == line

unfoldable pub is_remark : Token → Bool
is_remark tok = is_comment tok || is_document tok

-- The loop of nextToken, after a call of the scanner's NextToken. `line` is none for -1.
unfoldable pub skip_comments : ℕ → Option ℕ → List Token → List Token → Scanned × Scanner → Fetched
skip_comments fuel line lead head (err e, s) = failed e head s
skip_comments fuel line lead head (endless, s) = stalled
skip_comments zero line lead head (ok tok, s) = stalled
skip_comments (suc fuel) line lead head (ok tok, s) = elim (is_remark tok) [
  | true ↦
      skip_comments fuel line (if on_line tok line then lead ++ tok ∷ [] else lead)
        (if on_line tok line then head else head ++ tok ∷ []) (next_token s)
  | false ↦ fetched tok lead head s
]

unfoldable pub fetch : Option ℕ → List Token → Scanner → Fetched
fetch line head s = skip_comments (left s + 2) line [] head (next_token s)

-- SetLeadingCommentGroup of the node of the current token, which is the newest.
unfoldable pub set_leading : List Token → List TokenNode → List TokenNode
set_leading [] nodes = nodes
set_leading (c ∷ lead) [] = []
set_leading (c ∷ lead) (n ∷ nodes) = record n { leading_comment_group = c ∷ lead } ∷ nodes

-- nextToken after its call of fetch.
unfoldable pub settle : Parser → Fetched → Bool × Parser
settle p (fetched tok lead head s) = (
  true,
  record p {
    scanner = s;
    peek_tok = tok;
    head_comment_group = head;
    node = set_leading lead p.node;
  },
)
settle p (failed e head s) = (
  false,
  record p {
    scanner = s;
    peek_tok = error_token;
    head_comment_group = head;
    errors = p.errors ++ e ∷ [];
  },
)
settle p stalled = (false, p)

unfoldable pub parser_next : Parser → Bool × Parser
parser_next p' =
    let p = record p' { cur_tok = p'.peek_tok } in
    if is_valid p.cur_tok
    then (if token_is p.cur_tok (type eof ∷ [])
        then (true, record p { stmts = p.stmts ++ p.head_comment_group; head_comment_group = [] })
        else (let n : TokenNode = record {
          token = p.cur_tok;
          head_comment_group = p.head_comment_group;
          leading_comment_group = [];
        } in
            let q = record p { head_comment_group = []; node = n ∷ p.node } in
            settle q (fetch (some p.cur_tok.position.line) [] p.scanner)))
    else settle p (fetch none p.head_comment_group p.scanner)

unfoldable pub init : Parser → Bool × Parser
init p = let (more, p') = parser_next p in if more then parser_next p' else (false, p')
