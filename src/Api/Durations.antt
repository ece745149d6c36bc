-- ===== src/Api/Durations.antt =====
-- scanner.go: numbers and durations, such as 10, 1h30m or 2ms. Each function scans on from a unit;
-- `bg` is the position where the number began.

pub mod Spans
use fastgozero.Prelude.{◌+◌, ℕ, true, false, ◌||◌, not, ◌==◌, if◌then◌else◌}
use fastgozero.Prelude.Texts.{slice}
use fastgozero.Api.Token.{TokenType, Token, int, duration}
use fastgozero.Api.Reader.{
  Scanner, read_rune, new_position, illegal_token, is_digit, left, read_while,
}

abbrev pub micro : ℕ
micro = 181

-- The token that covers the runes from `bg` to the current one.
unfoldable pub token_from : TokenType → ℕ → Scanner → Token
token_from tp bg s = record {
  type = tp;
  text = slice bg s.position s.runes;
  position = new_position s bg;
}

unfoldable pub read_digits : Scanner → Scanner
read_digits s = read_while (left s + 1) is_digit s

unfoldable pub scan_nanosecond : ℕ → Scanner → Token × Scanner
scan_nanosecond bg s =
    let s1 = read_rune s in
    if not (s1.ch == b's')
    then illegal_token s1
    else (let s2 = read_rune s1 in (token_from duration bg s2, s2))

unfoldable pub scan_microsecond : ℕ → Scanner → Token × Scanner
scan_microsecond bg s =
    let s1 = read_rune s in
    if not (s1.ch == b's')
    then illegal_token s1
    else (let s2 = read_rune s1 in
        if not (is_digit s2.ch)
        then (token_from duration bg s2, s2)
        else (let s3 = read_digits s2 in
            if not (s3.ch == b'n') then illegal_token s3 else scan_nanosecond bg s3))

unfoldable pub scan_millisecond : ℕ → Scanner → Token × Scanner
scan_millisecond bg s =
    let s1 = read_rune s in
    if not (is_digit s1.ch)
    then (token_from duration bg s1, s1)
    else (let s2 = read_digits s1 in
        if s2.ch == b'n'
        then scan_nanosecond bg s2
        else if s2.ch == micro
        then scan_microsecond bg s2
        else illegal_token s2)

-- After `m` in scanSecond and scanMinute: only `ms` may follow.
unfoldable pub scan_ms : ℕ → Scanner → Token × Scanner
scan_ms bg s =
    let s1 = read_rune s in if not (s1.ch == b's') then illegal_token s1 else scan_millisecond bg s1

unfoldable pub scan_second : ℕ → Scanner → Token × Scanner
scan_second bg s =
    let s1 = read_rune s in
    if not (is_digit s1.ch)
    then (token_from duration bg s1, s1)
    else (let s2 = read_digits s1 in
        if s2.ch == b'n'
        then scan_nanosecond bg s2
        else if s2.ch == micro
        then scan_microsecond bg s2
        else if s2.ch == b'm'
        then scan_ms bg s2
        else illegal_token s2)

unfoldable pub scan_minute : ℕ → Scanner → Token × Scanner
scan_minute bg s =
    if not (is_digit s.ch)
    then (token_from duration bg s, s)
    else (let s1 = read_digits s in
        if s1.ch == b'n'
        then scan_nanosecond bg s1
        else if s1.ch == micro
        then scan_microsecond bg s1
        else if s1.ch == b'm'
        then scan_ms bg s1
        else if s1.ch == b's'
        then scan_second bg s1
        else illegal_token s1)

unfoldable pub scan_millisecond_or_minute : ℕ → Scanner → Token × Scanner
scan_millisecond_or_minute bg s =
    let s1 = read_rune s in
    if not (s1.ch == b's')
    then (if s1.ch == 0 || not (is_digit s1.ch)
        then (token_from duration bg s1, s1)
        else scan_minute bg s1)
    else scan_millisecond bg s1

unfoldable pub scan_hour : ℕ → Scanner → Token × Scanner
scan_hour bg s =
    let s1 = read_rune s in
    if not (is_digit s1.ch)
    then (token_from duration bg s1, s1)
    else (let s2 = read_digits s1 in
        if s2.ch == b'n'
        then scan_nanosecond bg s2
        else if s2.ch == micro
        then scan_microsecond bg s2
        else if s2.ch == b'm'
        then scan_millisecond_or_minute bg s2
        else if s2.ch == b's'
        then scan_second bg s2
        else illegal_token s2)

unfoldable pub scan_duration : ℕ → Scanner → Token × Scanner
scan_duration bg s =
    if s.ch == b'n'
    then scan_nanosecond bg s
    else if s.ch == micro
    then scan_microsecond bg s
    else if s.ch == b'm'
    then scan_millisecond_or_minute bg s
    else if s.ch == b's'
    then scan_second bg s
    else if s.ch == b'h'
    then scan_hour bg s
    else illegal_token s

unfoldable pub scan_int_or_duration : Scanner → Token × Scanner
scan_int_or_duration s =
    let s1 = read_digits s in
    if s1.ch == b'n' || s1.ch == micro || s1.ch == b'm' || s1.ch == b's' || s1.ch == b'h'
    then scan_duration s.position s1
    else (token_from int s.position s1, s1)
