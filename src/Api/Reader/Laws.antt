-- ===== src/Api/Reader/Laws.antt =====
-- scanner.go: the runes that Scanner reads are those of its data, in their order, and the loops
-- that read on while a test holds end where it fails.
use fastgozero.Prelude.{
  ap, sym, ◌∙◌, ℕ, zero, suc, ◌+◌, ◌≤◌, ◌<◌, ◌≡◌, ◌≢◌, refl, inl, inr, Bool, false, [], ◌∷◌, length,
  get_or, ltb, Bool-cases, arith,
}
use fastgozero.Prelude.Texts.{Text}
use fastgozero.Api.Reader.{Scanner, read_rune, peek_rune, left, read_while}

pub record IsValid (s : Scanner) : Type 0 where
  pub sized : s.size ≡ length s.runes
  pub next : s.read_position ≡ s.position + 1
  pub current : s.ch ≡ get_or s.runes s.position 0
  pub not_stuck : s.stuck ≡ false

-- `t` is `s` with more runes read.
pub record Follows (s t : Scanner) : Type 0 where
  pub same_file : t.filename ≡ s.filename
  pub same_size : t.size ≡ s.size
  pub same_runes : t.runes ≡ s.runes
  pub same_lines : t.lines ≡ s.lines
  pub later : s.position ≤ t.position
  pub valid : IsValid t

pub Follows-refl : (s : Scanner) → IsValid s → Follows s s
Follows-refl s v = record {
  same_file = refl;
  same_size = refl;
  same_runes = refl;
  same_lines = refl;
  later = omega arith;
  valid = v;
}

pub Follows-trans : (s t u : Scanner) → Follows s t → Follows t u → Follows s u
Follows-trans s t u a b = record {
  same_file = cc;
  same_size = cc;
  same_runes = cc;
  same_lines = cc;
  later = omega arith;
  valid = b.valid;
}

pub get_or_beyond : (xs : Text) (i : ℕ) → length xs ≤ i → get_or xs i 0 ≡ 0
get_or_beyond [] i h = refl
get_or_beyond (x ∷ xs) zero h = absurd (omega arith)
get_or_beyond (x ∷ xs) (suc i) h = get_or_beyond xs i (omega arith)

pub ch-lt : (s : Scanner) → IsValid s → s.ch ≢ 0 → s.position < s.size
ch-lt s v h = elim (Bool-cases (ltb s.position s.size)) [
  | inl in_range ↦ ground arith
  | inr out ↦ ground (arith, get_or_beyond s.runes s.position)
]

pub peek_rune_lem : (s : Scanner) → IsValid s → peek_rune s ≡ (read_rune s).ch
unfolding peek_rune read_rune
peek_rune_lem s v = refl

pub read_rune-IsValid : (s : Scanner) → IsValid s → IsValid (read_rune s)
unfolding read_rune
read_rune-IsValid s v = ground (arith, get_or_beyond s.runes s.read_position)

pub position-read_rune : (s : Scanner) → IsValid s → (read_rune s).position ≡ s.position + 1
unfolding read_rune
position-read_rune s v = omega arith

pub read_rune-Follows : (s : Scanner) → IsValid s → Follows s (read_rune s)
unfolding read_rune
read_rune-Follows s v = record {
  same_file = refl;
  same_size = refl;
  same_runes = refl;
  same_lines = refl;
  later = ground arith;
  valid = unfold read_rune in read_rune-IsValid s v;
}

-- A loop whose test fails at the end stops within the runes, where the test fails.
pub read_while_stops :
    (fuel : ℕ) (test : ℕ → Bool) (s : Scanner)
    → IsValid s
    → test 0 ≡ false
    → left s < fuel
    → s.position ≤ s.size
    → Follows s (read_while fuel test s)
      × (test (read_while fuel test s).ch ≡ false)
      × ((read_while fuel test s).position ≤ s.size)
unfolding read_while left
read_while_stops zero test s v e f h = absurd (omega arith)
read_while_stops (suc fuel) test s v e f h = elim (Bool-cases (test s.ch)) [
  | inl more ↦
      let here : s.ch ≢ 0 = λ gone. cc in
      let ahead : s.position < s.size = ch-lt s v here in
      let step = position-read_rune s v in
      let once = read_rune-Follows s v in
      let kept : (read_rune s).size ≡ s.size = once.same_size in
      let rest =
        read_while_stops fuel test (read_rune s) (read_rune-IsValid s v) e (omega arith)
          (omega arith) in
      rw (more, read_while)
        (Follows-trans s (read_rune s) _ once rest.0, rest.1, omega (arith, rest.2))
  | inr done ↦ rw (done, read_while) (Follows-refl s v, done, h)
]

-- The state after `n` reads, and the rune `n` ahead of the current one.
unfoldable pub advance : ℕ → Scanner → Scanner
advance zero s = s
advance (suc n) s = advance n (read_rune s)

unfoldable pub rune : Scanner → ℕ → ℕ
rune s n = get_or s.runes (s.position + n) 0

pub advance_zero : (s : Scanner) → advance 0 s ≡ s
unfolding advance
advance_zero s = refl

pub advance-suc : (n : ℕ) (s : Scanner) → advance (suc n) s ≡ advance n (read_rune s)
unfolding advance
advance-suc n s = refl

pub advance-read_rune : (n : ℕ) (s : Scanner) → read_rune (advance n s) ≡ advance (n + 1) s
unfolding advance
advance-read_rune zero s = refl
advance-read_rune (suc n) s =
    let e : suc (n + 1) ≡ suc n + 1 = omega arith in
    advance-read_rune n (read_rune s) ∙ ap (λ k. advance k s) e

pub advance-Follows : (n : ℕ) (s : Scanner) → IsValid s → Follows s (advance n s)
unfolding advance
advance-Follows zero s v = Follows-refl s v
advance-Follows (suc n) s v =
    Follows-trans s (read_rune s) (advance n (read_rune s)) (read_rune-Follows s v)
      (advance-Follows n (read_rune s) (read_rune-IsValid s v))

pub position-advance : (n : ℕ) (s : Scanner) → IsValid s → (advance n s).position ≡ s.position + n
unfolding advance
position-advance zero s v = omega arith
position-advance (suc n) s v =
    omega (arith, position-advance n (read_rune s) (read_rune-IsValid s v), position-read_rune s v)

pub ch-advance : (n : ℕ) (s : Scanner) → IsValid s → (advance n s).ch ≡ rune s n
unfolding rune
ch-advance n s v =
    let f = advance-Follows n s v in rw (f.valid.current, f.same_runes, position-advance n s v) refl

-- Where a rune is not 0 the input has not ended.
pub rune-lt : (n : ℕ) (s : Scanner) → IsValid s → rune s n ≢ 0 → s.position + n < s.size
rune-lt n s v h =
    let f = advance-Follows n s v in
    let c = ch-advance n s v in
    omega
      (arith, position-advance n s v, f.same_size, ch-lt (advance n s) f.valid (λ e. h (sym c ∙ e)))
