-- ===== src/Api/Comments/Ends.antt =====
-- parser.go: the loop of nextToken over the comments ends.
use fastgozero.Prelude.{
  ℕ, zero, suc, ◌+◌, ◌≤◌, ◌<◌, ◌≡◌, refl, sym, append-nil, append_assoc, inl, inr, ◌⊎◌, true, false,
  Option, List, [], ◌∷◌, ◌++◌, Bool-cases, if◌then◌else◌, arith,
}
use mathlib.Core.Path.{subst}
use fastgozero.Api.Token.{
  Token, illegal, dot, eof_token, is_comment, is_document, is_type, same_type, iota,
}
use fastgozero.Api.Reader.{Scanner, Scanned, ok, err, endless, left, skip_white_space}
use fastgozero.Api.Reader.Laws.{IsValid}
use fastgozero.Api.Scanner.{next_token}
use fastgozero.Api.Scanner.Progress.{Advances}
use fastgozero.Api.Scanner.Next.{Skips, next_token-Advances}
use fastgozero.Api.Comments.{
  Fetched, fetched, failed, stalled, on_line, is_remark, skip_comments, fetch,
}

-- The result of NextToken, where it is a token: a comment has moved the scanner on, within the input.
abbrev Step : Scanner → Scanned → Scanner → Type 0
Step s (ok tok) t =
    IsValid t
    × ((is_remark tok ≡ false)
        ⊎ ((is_remark tok ≡ true)
            × (s.position < t.position)
            × (t.position ≤ t.size)
            × (t.size ≡ s.size)))
Step s (err e) t = Unit {0}
Step s endless t = ⊥

not_remark_eof : is_remark eof_token ≡ false
unfolding is_remark is_comment is_document is_type same_type iota
not_remark_eof = refl

not_remark : (tok : Token) → (tok.type ≡ illegal) ⊎ (tok.type ≡ dot) → is_remark tok ≡ false
unfolding is_remark is_comment is_document is_type same_type iota
not_remark tok (inl e) = rw e refl
not_remark tok (inr e) = rw e refl

Advances-Step :
    (s k : Scanner) (r : Scanned) (t : Scanner) → Skips s k → Advances k r t → Step s r t
Advances-Step s k (ok tok) t sk (inl (e, last, same)) =
    (subst IsValid (sym same) sk.valid, inl (rw e not_remark_eof))
Advances-Step s k (ok tok) t sk (inr (inl (e, at, peek, same))) =
    (subst IsValid (sym same) sk.valid, inl (not_remark tok (inl e)))
Advances-Step s k (ok tok) t sk (inr (inr (f, lt, inl none))) =
    (f.valid, inl (not_remark tok (inl none)))
Advances-Step s k (ok tok) t sk (inr (inr (f, lt, inr (inl (point, text))))) =
    (f.valid, inl (not_remark tok (inr point)))
Advances-Step s k (ok tok) t sk (inr (inr (f, lt, inr (inr (text, within))))) = (
  f.valid,
  elim (Bool-cases (is_remark tok)) [
    | inl remark ↦
        inr (remark, omega (arith, sk.later), within, omega (arith, f.same_size, sk.same_size))
    | inr plain ↦ inl plain
  ],
)
Advances-Step s k (err e) t sk h = tt
Advances-Step s k endless t sk h = h

next_token-Step : (s : Scanner) → IsValid s → Step s (next_token s).0 (next_token s).1
next_token-Step s v =
    let (sk, a) = next_token-Advances s v in Advances-Step s (skip_white_space s) _ _ sk a

-- The comments and documents that NextToken gives in a row, from a scanner on.
pub data Remarks (s : Scanner) : List Token → Scanner → Type 0 where
  no_remark : Remarks s [] s
  then_remark :
      {toks : List Token} {u : Scanner} (tok : Token) (t : Scanner)
      → Remarks s toks u
      → next_token u ≡ (ok tok, t)
      → is_remark tok ≡ true
      → Remarks s (toks ++ tok ∷ []) t

-- Those on the line, and the others.
abbrev pub leading : Option ℕ → List Token → List Token
leading line [] = []
leading line (tok ∷ toks) = if on_line tok line then tok ∷ leading line toks else leading line toks

abbrev pub others : Option ℕ → List Token → List Token
others line [] = []
others line (tok ∷ toks) = if on_line tok line then others line toks else tok ∷ others line toks

leading-snoc :
    (line : Option ℕ) (toks : List Token) (tok : Token)
    → leading line (toks ++ tok ∷ [])
      ≡ (if on_line tok line then leading line toks ++ tok ∷ [] else leading line toks)
leading-snoc line [] tok = refl
leading-snoc line (t ∷ toks) tok = ground (arith, leading-snoc line toks tok)

others_last :
    (line : Option ℕ) (toks : List Token) (tok : Token)
    → others line (toks ++ tok ∷ [])
      ≡ (if on_line tok line then others line toks else others line toks ++ tok ∷ [])
others_last line [] tok = refl
others_last line (t ∷ toks) tok = ground (arith, others_last line toks tok)

others-snoc :
    (line : Option ℕ) (head toks : List Token) (tok : Token)
    → head ++ others line (toks ++ tok ∷ []) ≡ (
        if on_line tok line
        then head ++ others line toks
        else (head ++ others line toks) ++ tok ∷ [])
others-snoc line head toks tok = elim (Bool-cases (on_line tok line)) [
  | inl here ↦ rw (others_last line toks tok, here) refl
  | inr other ↦
      rw (others_last line toks tok, other) (sym (append_assoc head (others line toks) (tok ∷ [])))
]

-- The loop ended: with the first token that is no comment, the comments before it that are on the
-- line as the leading ones, and the others behind those of `head`; or with an error.
abbrev pub Settles : Option ℕ → List Token → Scanner → Fetched → Type 0
Settles line head s (fetched tok lead head' s') =
    (toks : List Token) × (u : Scanner) × Remarks s toks u
    × (next_token u ≡ (ok tok, s'))
    × IsValid s'
    × (is_remark tok ≡ false)
    × (lead ≡ leading line toks)
    × (head' ≡ head ++ others line toks)
Settles line head s (failed e head' s') =
    (toks : List Token) × (u : Scanner) × Remarks s toks u
    × (next_token u ≡ (err e, s'))
    × (head' ≡ head ++ others line toks)
Settles line head s stalled = ⊥

module _ (line : Option ℕ) (head : List Token) (s : Scanner) where
  skip_comments-Settles :
      (fuel : ℕ) (toks : List Token) (u : Scanner) (r : Scanned) (t : Scanner)
      → Remarks s toks u
      → next_token u ≡ (r, t)
      → left u < fuel
      → Step u r t
      → Settles line head s
          (skip_comments fuel line (leading line toks) (head ++ others line toks) (r, t))
  unfolding skip_comments left
  skip_comments-Settles fuel toks u (err e) t c n lt st = (toks, u, c, n, refl)
  skip_comments-Settles fuel toks u endless t c n lt st = st
  skip_comments-Settles zero toks u (ok tok) t c n lt st = absurd (omega arith)
  skip_comments-Settles (suc fuel) toks u (ok tok) t c n lt (v, inl plain) =
      rw (plain, skip_comments) (toks, u, c, n, v, plain, refl, refl)
  skip_comments-Settles (suc fuel) toks u (ok tok) t c n lt (v, inr (remark, on, within, same)) =
      rw (remark, skip_comments, ← leading-snoc line toks tok, ← others-snoc line head toks tok)
        (skip_comments-Settles fuel (toks ++ tok ∷ []) t (next_token t).0 (next_token t).1
          (then_remark tok t c n remark) refl (omega arith) (next_token-Step t v))

-- The loop of nextToken over comments ends, on every valid scanner: with the first token of NextToken
-- that is no comment, where of the comments before it those on the line of the current token lead
-- it, all of them in their order, and all others are put behind the head comments that were there;
-- or with the first error of the scanner, with the head comments so far.
pub fetch-Settles :
    (line : Option ℕ) (head : List Token) (s : Scanner)
    → IsValid s
    → Settles line head s (fetch line head s)
unfolding fetch
fetch-Settles line head s v =
    subst (λ h. Settles line head s (skip_comments (left s + 2) line [] h (next_token s)))
      (append-nil head)
      (skip_comments-Settles line head s (left s + 2) [] s (next_token s).0 (next_token s).1
        no_remark refl (omega arith) (next_token-Step s v))
