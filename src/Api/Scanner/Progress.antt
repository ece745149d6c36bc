-- ===== src/Api/Scanner/Progress.antt =====
-- scanner.go: NextToken takes what it returns from the input, or is at its end.
use fastgozero.Prelude.{
  ◌+◌, ◌<◌, ◌≡◌, ◌≢◌, refl, sym, ap, ◌∙◌, ◌⊎◌, inl, inr, true, not, List, [], ◌∷◌, ◌==◌, arith,
  if_both, not-==_eq, ==_iff,
}
use fastgozero.Prelude.Texts.{Text, codes, slice, slice_empty, text_eq, text_eq→eq}
use fastgozero.Api.Token
use fastgozero.Api.Token.{TokenType, Token, illegal, dot, eof_token, new_illegal_token}
use fastgozero.Api.Reader.{
  Scanner, Scanned, ok, err, endless, read_rune, peek_rune, new_token, is_letter, read_while, left,
  read_while, assert_expected_string,
}
use fastgozero.Api.Reader.Laws.{
  IsValid, Follows, Follows-refl, Follows-trans, read_rune-Follows, position-read_rune,
  peek_rune_lem,
}
use fastgozero.Api.Durations.Spans.{Reads, read_rune-Reads, read_while-Reads}
use fastgozero.Api.Scanner.{scan_dots, fixed_token, scan_letter_set, at_letters, scan_at}
use fastgozero.Api.Scanner.Advance.{Took, Reads-self, slice_rune, new_token-Took}

-- What a scan from `s` gives, with the state behind it: an error; the token of the end, at the end;
-- the sign @ as an illegal token, if it is the last rune, and then nothing is read; else a token
-- that took something.
abbrev pub Advances : Scanner → Scanned → Scanner → Type 0
Advances s (ok tok) t =
    ((tok ≡ eof_token) × (s.ch ≡ 0) × (t ≡ s))
    ⊎ (((tok.type ≡ illegal) × (s.ch ≡ b'@') × (peek_rune s ≡ 0) × (t ≡ s)) ⊎ Took s (tok, t))
Advances s (err e) t = Follows s t
Advances s endless t = ⊥

module _ (s : Scanner) (v : IsValid s) (first : s.ch ≡ b'.') where
  alive : s.ch ≢ 0
  alive z = absurd (omega arith)

  second_dot : peek_rune s ≡ b'.' → Took s (new_token (read_rune s) dot)
  unfolding new_token
  second_dot h =
      let v1 = (read_rune-Follows s v).valid in
      let c1 : (read_rune s).ch ≡ b'.' = sym (peek_rune_lem s v) ∙ h in
      (
        Follows-trans s (read_rune s) _ (read_rune-Follows s v) (read_rune-Follows _ v1),
        omega (arith, position-read_rune s v, position-read_rune _ v1),
        inr (inl (refl, ap (λ c. c ∷ []) c1)),
      )

  three_dots :
      peek_rune s ≡ b'.'
      → peek_rune (read_rune s) ≡ b'.'
      → let t = read_rune (read_rune (read_rune s)) in
        Took s (fixed_token Token.ellipsis (codes "...") s.position t, t)
  unfolding fixed_token
  three_dots h k =
      let r1 = read_rune-Reads s s (Reads-self s v alive) alive in
      let c1 : (read_rune s).ch ≡ b'.' = sym (peek_rune_lem s v) ∙ h in
      let r2 = read_rune-Reads s _ r1 (λ z. absurd (omega arith)) in
      let c2 : (read_rune (read_rune s)).ch ≡ b'.' = sym (peek_rune_lem _ r1.follows.valid) ∙ k in
      let r3 = read_rune-Reads s _ r2 (λ z. absurd (omega arith)) in
      let f1 = read_rune-Follows _ r1.follows.valid in
      let f2 = read_rune-Follows _ r2.follows.valid in
      let p1 = position-read_rune s v in
      let p2 = position-read_rune _ r1.follows.valid in
      let p3 = position-read_rune _ r2.follows.valid in
      let t = read_rune (read_rune (read_rune s)) in
      let a = slice_rune s t v alive r3.follows (omega arith) in
      let b =
        slice_rune (read_rune s) t r1.follows.valid (λ z. absurd (omega arith))
          (Follows-trans _ _ t f1 f2) (omega arith) in
      let c = slice_rune _ t r2.follows.valid (λ z. absurd (omega arith)) f2 (omega arith) in
      let d = slice_empty t.position t.runes in (r3.follows, omega arith, inr (inr (cc, r3.within)))

  pub scan_dots-Took : Took s (scan_dots s)
  unfolding scan_dots
  scan_dots-Took =
      if_both (Took s) _ (λ one. new_token-Took dot s v alive)
        (λ two.
          if_both (Took s) _ (λ other. second_dot (not-==_eq (peek_rune s) b'.' two))
            (λ three.
              three_dots (not-==_eq (peek_rune s) b'.' two)
                (not-==_eq (peek_rune (read_rune s)) b'.' three)))

-- The result of a scan from `s`.
pub record Outcome (s : Scanner) (x : Scanned × Scanner) : Type 0 where
  pub holds : Advances s x.0 x.1

pub fails :
    (s t u : Scanner) (actual : Text) (expected : List Text)
    → Follows s t
    → Outcome s (assert_expected_string u actual expected, t)
unfolding assert_expected_string
fails s t u actual expected f = record { holds = f }

sign_ends :
    (s : Scanner) (pos : Token.Position)
    → s.ch ≡ b'@'
    → (peek_rune s == 0) ≡ true
    → Outcome s (ok (new_illegal_token s.ch pos), s)
unfolding new_illegal_token
sign_ends s pos h last = record {
  holds = inr (inl (refl, h, (==_iff (peek_rune s) 0).0 last, refl));
}

pub Took-Outcome : (s t : Scanner) (tok : Token) → Took s (tok, t) → Outcome s (ok tok, t)
Took-Outcome s t tok h = record { holds = inr (inr h) }

-- The letters behind the sign.
module _ (s t : Scanner) (letters : Text) (r : Reads s t) (lt : s.position < t.position)
    (e : b'@' ∷ letters ≡ slice s.position t.position t.runes) where
  named :
      (tp : TokenType) (name : Text)
      → text_eq letters name ≡ true
      → Outcome s (ok (fixed_token tp (b'@' ∷ name) s.position t), t)
  unfolding fixed_token
  named tp name same =
      let n = text_eq→eq letters name same in
      let c : b'@' ∷ name ≡ slice s.position t.position t.runes = cc in
      record { holds = inr (inr (r.follows, lt, inr (inr (c, r.within)))) }

  at_letters-Outcome : Outcome s (at_letters s.position letters t)
  unfolding at_letters
  at_letters-Outcome =
      if_both (Outcome s) _ (λ handler. named Token.at_handler (codes "handler") handler)
        (λ _.
          if_both (Outcome s) _ (λ server. named Token.at_server (codes "server") server)
            (λ _.
              if_both (Outcome s) _ (λ doc. named Token.at_doc (codes "doc") doc)
                (λ _. fails s t t _ _ r.follows)))

pub scan_at-Outcome : (s : Scanner) → IsValid s → s.ch ≡ b'@' → Outcome s (scan_at s)
unfolding scan_at scan_letter_set
scan_at-Outcome s v h =
    let alive : s.ch ≢ 0 = λ z. absurd (omega arith) in
    let r1 = read_rune-Reads s s (Reads-self s v alive) alive in
    let r2 =
      read_while-Reads is_letter (read_rune s) (read_rune s) (unfold is_letter in refl)
        (record { follows = Follows-refl _ r1.follows.valid; within = r1.within }) in
    let t = read_while (left (read_rune s) + 1) is_letter (read_rune s) in
    let f = Follows-trans s (read_rune s) t r1.follows r2.follows in
    let p = position-read_rune s v in
    let lt : s.position < t.position = omega (arith, r2.follows.later) in
    let text : b'@' ∷ slice (read_rune s).position t.position t.runes
        ≡ slice s.position t.position t.runes =
      ap (λ c. c ∷ slice (read_rune s).position t.position t.runes) (sym h)
      ∙ sym (slice_rune s t v alive f lt) in
    if_both (Outcome s) (not (is_letter (peek_rune s)))
      (λ other.
        if_both (Outcome s) (peek_rune s == 0) (λ last. sign_ends s _ h last)
          (λ _. fails s s s _ _ (Follows-refl s v)))
      (λ letter. at_letters-Outcome s t _ (record { follows = f; within = r2.within }) lt text)
