-- ===== src/Api/Scanner/Advance.antt =====
-- scanner.go: what each scan takes from the input.
use fastgozero.Prelude.{
  ◌+◌, ◌≤◌, ◌<◌, ◌≡◌, ◌≢◌, refl, sym, ap, ◌∙◌, ◌⊎◌, inl, inr, true, false, ◌∷◌, arith, if_both,
  ==-ne_zero,
}
use fastgozero.Prelude.Texts.{codes, slice, slice_first, slice_empty}
use fastgozero.Api.Token
use fastgozero.Api.Token.{
  TokenType, Token, illegal, dot, eof_token, comment, int, duration, ellipsis, key, any, ident,
  new_illegal_token,
}
use fastgozero.Api.Reader.{
  Scanner, read_rune, peek_rune, new_token, is_digit, is_identifier_letter, left, read_while,
}
use fastgozero.Api.Reader.Laws.{
  IsValid, Follows, Follows-refl, Follows-trans, ch-lt, read_rune-Follows, position-read_rune,
  peek_rune_lem,
}
use fastgozero.Api.Durations.{token_from, scan_int_or_duration, read_digits}
use fastgozero.Api.Durations.Spans.{
  Reads, Spans, read_rune-Reads, read_while-Reads, read_while_ahead, scan_duration-Spans,
}
use fastgozero.Api.Scanner.{in_line, in_ident, scan_line_comment, scan_ident, scan_other}

-- The runes from `s` to `t` are the text of the token; an illegal token has lost them, and so has a
-- point that follows one.
abbrev pub Covered : Scanner → Token → Scanner → Type 0
Covered s tok t =
    (tok.type ≡ illegal)
    ⊎ (((tok.type ≡ dot) × (tok.text ≡ codes "."))
        ⊎ ((tok.text ≡ slice s.position t.position t.runes) × (t.position ≤ t.size)))

-- A scan of one token from `s` read at least one rune.
abbrev pub Took : Scanner → Token × Scanner → Type 0
Took s (tok, t) = Follows s t × (s.position < t.position) × Covered s tok t

pub Reads-self : (s : Scanner) → IsValid s → s.ch ≢ 0 → Reads s s
Reads-self s v h = record { follows = Follows-refl s v; within = omega (arith, ch-lt s v h) }

pub slice_rune :
    (s t : Scanner)
    → IsValid s
    → s.ch ≢ 0
    → Follows s t
    → s.position < t.position
    → slice s.position t.position t.runes ≡ s.ch ∷ slice (read_rune s).position t.position t.runes
slice_rune s t v h f lt =
    let ahead = ch-lt s v h in
    rw (position-read_rune s v, f.same_runes, v.current)
      (slice_first s.position t.position s.runes lt (omega arith))

pub new_token-Took : (tp : TokenType) (s : Scanner) → IsValid s → s.ch ≢ 0 → Took s (new_token s tp)
unfolding new_token
new_token-Took tp s v h =
    let f = read_rune-Follows s v in
    let p = position-read_rune s v in
    let r = read_rune-Reads s s (Reads-self s v h) h in
    (
      f,
      omega arith,
      inr (
          inr (
            sym (
                slice_rune s (read_rune s) v h f (omega arith)
                ∙ ap (λ xs. s.ch ∷ xs) (slice_empty (read_rune s).position (read_rune s).runes)),
            r.within,
          )),
    )

-- The token from `s` to a state that reads led to.
pub token_from-Took :
    (tp : TokenType) (s t : Scanner)
    → Reads s t
    → s.position < t.position
    → Took s (token_from tp s.position t, t)
unfolding token_from
token_from-Took tp s t r lt = (r.follows, lt, inr (inr (refl, r.within)))

pub scan_line_comment-Took : (s : Scanner) → IsValid s → s.ch ≡ b'/' → Took s (scan_line_comment s)
unfolding scan_line_comment
scan_line_comment-Took s v h =
    let alive : s.ch ≢ 0 = λ z. absurd (omega arith) in
    token_from-Took comment s _ (read_while-Reads in_line s s refl (Reads-self s v alive))
      (read_while_ahead in_line s v refl (ground arith))

Spans-Took :
    (tp : TokenType) (s t : Scanner) (r : Token × Scanner)
    → Follows s t
    → s.position < t.position
    → Spans tp s.position t r
    → Took s r
Spans-Took tp s t (tok, u) f lt d = (
  Follows-trans s t u f d.follows,
  omega (arith, d.follows.later),
  elim d.covers [ inl none ↦ inl none | inr (_, text, within) ↦ inr (inr (text, within)) ],
)

scan_int_or_duration-Took :
    (s : Scanner) → IsValid s → is_digit s.ch ≡ true → Took s (scan_int_or_duration s)
unfolding scan_int_or_duration read_digits
scan_int_or_duration-Took s v h =
    let alive : s.ch ≢ 0 = unfold is_digit in ground arith in
    let r = read_while-Reads is_digit s s (unfold is_digit in refl) (Reads-self s v alive) in
    let lt = read_while_ahead is_digit s v (unfold is_digit in refl) h in
    let self : Reads (read_digits s) (read_digits s) = record {
      follows = Follows-refl _ r.follows.valid;
      within = r.within;
    } in
    if_both (Took s) _
      (λ unit.
        Spans-Took duration s (read_digits s) _ r.follows lt
          (scan_duration-Spans s.position (read_digits s) (read_digits s) self))
      (λ plain. token_from-Took int s _ r lt)

scan_ident-Took :
    (s : Scanner) → IsValid s → is_identifier_letter s.ch ≡ true → Took s (scan_ident s)
unfolding scan_ident
scan_ident-Took s v h =
    let alive : s.ch ≢ 0 = unfold is_identifier_letter in ground arith in
    let last : in_ident 0 ≡ false = unfold is_identifier_letter is_digit in refl in
    let r = read_while-Reads in_ident s s last (Reads-self s v alive) in
    let lt = read_while_ahead in_ident s v last (ground arith) in
    if_both (Took s) _
      (λ colon.
        let r1 = read_rune-Reads s _ r (==-ne_zero _ b':' colon (omega arith)) in
        token_from-Took key s _ r1 (omega (arith, (read_rune-Follows _ r.follows.valid).later)))
      (λ _.
        if_both (Took s) _
          (λ braces.
            let open_brace : (read_while (left s + 1) in_ident s).ch ≡ b'{' = ground arith in
            let close : peek_rune (read_while (left s + 1) in_ident s) ≡ b'}' = ground arith in
            let r1 = read_rune-Reads s _ r (λ z. absurd (omega arith)) in
            let next = peek_rune_lem _ r.follows.valid in
            let r2 = read_rune-Reads s _ r1 (λ z. absurd (omega arith)) in
            token_from-Took any s _ r2 (
              omega (
                arith,
                (read_rune-Follows _ r.follows.valid).later,
                (read_rune-Follows _ r1.follows.valid).later,
              )))
          (λ plain. token_from-Took ident s _ r lt))

illegal-Took :
    (s : Scanner) (pos : Token.Position)
    → IsValid s
    → Took s (new_illegal_token s.ch pos, read_rune s)
unfolding new_illegal_token
illegal-Took s pos v = (read_rune-Follows s v, omega (arith, position-read_rune s v), inl refl)

pub scan_other-Took : (s : Scanner) → IsValid s → Took s (scan_other s)
unfolding scan_other
scan_other-Took s v =
    if_both (Took s) _ (λ letter. scan_ident-Took s v letter)
      (λ _.
        if_both (Took s) _ (λ digit. scan_int_or_duration-Took s v digit) (λ _. illegal-Took s _ v))
