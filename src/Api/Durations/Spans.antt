-- ===== src/Api/Durations/Spans.antt =====
-- scanner.go: a scan of a number or a duration ends with a token that covers what was read from its
-- start on, or with an illegal token.
use fastgozero.Prelude.{
  ◌+◌, ℕ, suc, ◌≤◌, ◌<◌, ◌≡◌, ◌≢◌, refl, inl, inr, ◌⊎◌, Bool, true, false, ◌==◌, arith, if_both,
  if◌then◌else◌, ==-ne_zero, not-==-ne_zero,
}
use fastgozero.Prelude.Texts.{slice}
use fastgozero.Api.Token.{TokenType, Token, illegal, duration, new_illegal_token}
use fastgozero.Api.Reader.{Scanner, read_rune, illegal_token, is_digit, left, read_while}
use fastgozero.Api.Reader.Laws.{
  IsValid, Follows, Follows-trans, ch-lt, read_rune-Follows, position-read_rune, read_while_stops,
}
use fastgozero.Api.Durations.{
  token_from, read_digits, scan_nanosecond, scan_microsecond, scan_millisecond, scan_ms,
  scan_second, scan_minute, scan_millisecond_or_minute, scan_hour, scan_duration, micro,
}

-- `t` is reached from `s` by reads that did not pass the end.
pub record Reads (s t : Scanner) : Type 0 where
  pub follows : Follows s t
  pub within : t.position ≤ t.size

pub Reads-trans : (s t u : Scanner) → Reads s t → Reads t u → Reads s u
Reads-trans s t u a b = record {
  follows = Follows-trans s t u a.follows b.follows;
  within = b.within;
}

pub read_rune-Reads : (s t : Scanner) → Reads s t → t.ch ≢ 0 → Reads s (read_rune t)
read_rune-Reads s t a h =
    let ahead = ch-lt t a.follows.valid h in
    let step = position-read_rune t a.follows.valid in
    let once = read_rune-Follows t a.follows.valid in
    record {
      follows = Follows-trans s t (read_rune t) a.follows once;
      within = omega (arith, once.same_size);
    }

pub read_while-Reads :
    (test : ℕ → Bool) (s t : Scanner)
    → test 0 ≡ false
    → Reads s t
    → Reads s (read_while (left t + 1) test t)
read_while-Reads test s t e a =
    let valid = a.follows.valid in
    let (all, fails, ends) = read_while_stops (left t + 1) test t valid e (omega arith) a.within in
    record {
      follows = Follows-trans s t (read_while (left t + 1) test t) a.follows all;
      within = omega (arith, all.same_size);
    }

-- A token and the state behind it: the token is illegal, or has the type and covers the runes from
-- `bg` on.
abbrev pub Covers : TokenType → ℕ → Token × Scanner → Type 0
Covers tp bg (t, s) =
    (t.type ≡ illegal)
    ⊎ ((t.type ≡ tp) × (t.text ≡ slice bg s.position s.runes) × (s.position ≤ s.size))

pub record Spans (tp : TokenType) (bg : ℕ) (s : Scanner) (r : Token × Scanner) : Type 0 where
  pub follows : Follows s r.1
  pub covers : Covers tp bg r

pub token_from-Spans :
    (tp : TokenType) (bg : ℕ) (s t : Scanner) → Reads s t → Spans tp bg s (token_from tp bg t, t)
unfolding token_from
token_from-Spans tp bg s t a = record { follows = a.follows; covers = inr (refl, refl, a.within) }

pub illegal_token-Spans :
    (tp : TokenType) (bg : ℕ) (s t : Scanner) → Reads s t → Spans tp bg s (illegal_token t)
unfolding illegal_token new_illegal_token
illegal_token-Spans tp bg s t a = record {
  follows = Follows-trans s t (read_rune t) a.follows (read_rune-Follows t a.follows.valid);
  covers = inl refl;
}

module _ (bg : ℕ) (s : Scanner) where
  abbrev IsDuration : Token × Scanner → Type 0
  IsDuration = Spans duration bg s

  read_digits-Reads : (t : Scanner) → Reads s t → Reads s (read_digits t)
  unfolding read_digits is_digit
  read_digits-Reads t a = read_while-Reads is_digit s t refl a

  scan_nanosecond-IsDuration :
      (t : Scanner) → Reads s t → t.ch ≢ 0 → IsDuration (scan_nanosecond bg t)
  unfolding scan_nanosecond
  scan_nanosecond-IsDuration t a h =
      let a1 = read_rune-Reads s t a h in
      if_both IsDuration _ (λ other. illegal_token-Spans duration bg s _ a1)
        (λ same.
          token_from-Spans duration bg s _
            (read_rune-Reads s _ a1 (not-==-ne_zero _ b's' same (omega arith))))

  scan_microsecond-IsDuration :
      (t : Scanner) → Reads s t → t.ch ≢ 0 → IsDuration (scan_microsecond bg t)
  unfolding scan_microsecond
  scan_microsecond-IsDuration t a h =
      let a1 = read_rune-Reads s t a h in
      if_both IsDuration _ (λ other. illegal_token-Spans duration bg s _ a1)
        (λ same.
          let a2 = read_rune-Reads s _ a1 (not-==-ne_zero _ b's' same (omega arith)) in
          if_both IsDuration _ (λ ends. token_from-Spans duration bg s _ a2)
            (λ more.
              let a3 = read_digits-Reads _ a2 in
              if_both IsDuration _ (λ other. illegal_token-Spans duration bg s _ a3)
                (λ unit.
                  scan_nanosecond-IsDuration _ a3 (not-==-ne_zero _ b'n' unit (omega arith)))))

  scan_millisecond-IsDuration :
      (t : Scanner) → Reads s t → t.ch ≢ 0 → IsDuration (scan_millisecond bg t)
  unfolding scan_millisecond
  scan_millisecond-IsDuration t a h =
      let a1 = read_rune-Reads s t a h in
      if_both IsDuration _ (λ ends. token_from-Spans duration bg s _ a1)
        (λ more.
          let a2 = read_digits-Reads _ a1 in
          if_both IsDuration _
            (λ n. scan_nanosecond-IsDuration _ a2 (==-ne_zero _ b'n' n (omega arith)))
            (λ other.
              if_both IsDuration _
                (λ u. scan_microsecond-IsDuration _ a2 (==-ne_zero _ micro u (omega arith)))
                (λ other'. illegal_token-Spans duration bg s _ a2)))

  scan_ms-IsDuration : (t : Scanner) → Reads s t → t.ch ≢ 0 → IsDuration (scan_ms bg t)
  unfolding scan_ms
  scan_ms-IsDuration t a h =
      let a1 = read_rune-Reads s t a h in
      if_both IsDuration _ (λ other. illegal_token-Spans duration bg s _ a1)
        (λ same. scan_millisecond-IsDuration _ a1 (not-==-ne_zero _ b's' same (omega arith)))

  -- The units that may follow a number after seconds.
  module _ (t : Scanner) (a : Reads s t) where
    below_second : IsDuration (
        if t.ch == b'n'
        then scan_nanosecond bg t
        else if t.ch == micro
        then scan_microsecond bg t
        else if t.ch == b'm'
        then scan_ms bg t
        else illegal_token t)
    below_second =
        if_both IsDuration _
          (λ n. scan_nanosecond-IsDuration t a (==-ne_zero _ b'n' n (omega arith)))
          (λ _.
            if_both IsDuration _
              (λ u. scan_microsecond-IsDuration t a (==-ne_zero _ micro u (omega arith)))
              (λ _.
                if_both IsDuration _
                  (λ m. scan_ms-IsDuration t a (==-ne_zero _ b'm' m (omega arith)))
                  (λ _. illegal_token-Spans duration bg s t a)))

  scan_second-IsDuration : (t : Scanner) → Reads s t → t.ch ≢ 0 → IsDuration (scan_second bg t)
  unfolding scan_second
  scan_second-IsDuration t a h =
      let a1 = read_rune-Reads s t a h in
      if_both IsDuration _ (λ ends. token_from-Spans duration bg s _ a1)
        (λ more. below_second _ (read_digits-Reads _ a1))

  -- A number that is not the first one, by its unit.
  module _ (t : Scanner) (a : Reads s t) where
    with_unit :
        {x y : Token × Scanner}
        → (t.ch ≢ 0 → IsDuration x)
        → IsDuration y
        → IsDuration (
            if t.ch == b'n'
            then scan_nanosecond bg t
            else if t.ch == micro
            then scan_microsecond bg t
            else if t.ch == b'm'
            then x
            else if t.ch == b's'
            then scan_second bg t
            else y)
    with_unit m_case other_case =
        if_both IsDuration _
          (λ n. scan_nanosecond-IsDuration t a (==-ne_zero _ b'n' n (omega arith)))
          (λ _.
            if_both IsDuration _
              (λ u. scan_microsecond-IsDuration t a (==-ne_zero _ micro u (omega arith)))
              (λ _.
                if_both IsDuration _ (λ m. m_case (==-ne_zero _ b'm' m (omega arith)))
                  (λ _.
                    if_both IsDuration _
                      (λ u. scan_second-IsDuration t a (==-ne_zero _ b's' u (omega arith)))
                      (λ _. other_case))))

  scan_minute-IsDuration : (t : Scanner) → Reads s t → IsDuration (scan_minute bg t)
  unfolding scan_minute
  scan_minute-IsDuration t a =
      if_both IsDuration _ (λ ends. token_from-Spans duration bg s t a)
        (λ more.
          let a1 = read_digits-Reads t a in
          with_unit _ a1 (scan_ms-IsDuration _ a1) (illegal_token-Spans duration bg s _ a1))

  scan_millisecond_or_minute-IsDuration :
      (t : Scanner) → Reads s t → t.ch ≢ 0 → IsDuration (scan_millisecond_or_minute bg t)
  unfolding scan_millisecond_or_minute
  scan_millisecond_or_minute-IsDuration t a h =
      let a1 = read_rune-Reads s t a h in
      if_both IsDuration _
        (λ minute.
          if_both IsDuration _ (λ ends. token_from-Spans duration bg s _ a1)
            (λ more. scan_minute-IsDuration _ a1))
        (λ milli. scan_millisecond-IsDuration _ a1 (not-==-ne_zero _ b's' milli (omega arith)))

  scan_hour-IsDuration : (t : Scanner) → Reads s t → t.ch ≢ 0 → IsDuration (scan_hour bg t)
  unfolding scan_hour
  scan_hour-IsDuration t a h =
      let a1 = read_rune-Reads s t a h in
      if_both IsDuration _ (λ ends. token_from-Spans duration bg s _ a1)
        (λ more.
          let a2 = read_digits-Reads _ a1 in
          with_unit _ a2 (scan_millisecond_or_minute-IsDuration _ a2)
            (illegal_token-Spans duration bg s _ a2))

  pub scan_duration-Spans : (t : Scanner) → Reads s t → Spans duration bg s (scan_duration bg t)
  unfolding scan_duration
  scan_duration-Spans t a = with_unit t a (scan_millisecond_or_minute-IsDuration t a) (
      if_both IsDuration _ (λ u. scan_hour-IsDuration t a (==-ne_zero _ b'h' u (omega arith)))
        (λ _. illegal_token-Spans duration bg s t a))

pub read_while_ahead :
    (test : ℕ → Bool) (s : Scanner)
    → IsValid s
    → test 0 ≡ false
    → test s.ch ≡ true
    → s.position < (read_while (left s + 1) test s).position
unfolding read_while left
read_while_ahead test s v e h =
    let alive : s.ch ≢ 0 = λ z. cc in
    let ahead = ch-lt s v alive in
    let f : left s + 1 ≡ suc (left s) = omega arith in
    let once = read_rune-Follows s v in
    let step = position-read_rune s v in
    let on =
      read_while_stops (left s) test (read_rune s) once.valid e
        (unfold left in omega (arith, once.same_size)) (omega (arith, once.same_size)) in
    rw (f, h, read_while) (omega (arith, on.0.later))
