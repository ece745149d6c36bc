-- ===== src/Api/Scanner/Loops.antt =====
-- scanner.go: the loops of scanString and scanDocument.
use fastgozero.Prelude.{ℕ, zero, suc, ◌+◌, ◌-◌, ◌≤◌, ◌<◌, ◌≡◌, ◌≢◌, refl, ◌∙◌, ap, arith}
use fastgozero.Api.Reader.{Scanner, Scanned, read_rune, left}
use fastgozero.Api.Reader.Laws.{
  IsValid, ch-lt, read_rune-Follows, position-read_rune, advance, advance_zero, advance-read_rune,
  read_rune-IsValid,
}
use fastgozero.Api.Scanner.{Mode, Round, go_on, return, mode_loop, run_loop, init_mode}

pub mode_loop_goes :
    (fuel : ℕ) (round : Mode → Scanner → Round) (m m' : Mode) (s : Scanner)
    → round m s ≡ go_on m'
    → mode_loop (suc fuel) round m s ≡ mode_loop fuel round m' (read_rune s)
unfolding mode_loop
mode_loop_goes fuel round m m' s e = rw (e, mode_loop) refl

pub mode_loop_returns :
    (fuel : ℕ) (round : Mode → Scanner → Round) (m : Mode) (s : Scanner) (r : Scanned) (t : Scanner)
    → round m s ≡ return r t
    → mode_loop (suc fuel) round m s ≡ (r, t)
unfolding mode_loop
mode_loop_returns fuel round m s r t e = rw (e, mode_loop) refl

module _ (Inv : Mode → Scanner → Type 0) (Post : Scanned → Scanner → Type 0) where
  abbrev pub After : Scanner → Round → Type 0
  After s (go_on m) = Inv m (read_rune s) × (s.ch ≢ 0)
  After s (return r t) = Post r t

  -- A loop that goes on only where the input has not ended returns, and what holds where it
  -- returns holds at its end.
  pub mode_loop_post :
      (round : Mode → Scanner → Round)
      → ((m : Mode) (s : Scanner) → IsValid s → Inv m s → After s (round m s))
      → (fuel : ℕ) (m : Mode) (s : Scanner) → left s < fuel
      → IsValid s
      → Inv m s
      → Post (mode_loop fuel round m s).0 (mode_loop fuel round m s).1
  unfolding mode_loop left
  mode_loop_post round keep zero m s lt v i = absurd (omega arith)
  mode_loop_post round keep (suc fuel) m s lt v i =
      by_round (mode_loop_post round keep fuel) (round m s) refl (keep m s v i)
    where
      by_round :
          ((m' : Mode) (t : Scanner)
            → left t < fuel
            → IsValid t
            → Inv m' t
            → Post (mode_loop fuel round m' t).0 (mode_loop fuel round m' t).1)
          → (r : Round) → round m s ≡ r
          → After s r
          → Post (mode_loop (suc fuel) round m s).0 (mode_loop (suc fuel) round m s).1
      by_round rec (go_on m') e (i', alive) = rw (mode_loop_goes fuel round m m' s e) (
          rec m' (read_rune s)
            (omega
              (arith, ch-lt s v alive, position-read_rune s v, (read_rune-Follows s v).same_size))
            (read_rune-IsValid s v) i')
      by_round rec (return r t) e p = rw (mode_loop_returns fuel round m s r t e) p

-- The loop from `s` at the `n`-th rune.
module _ (round : Mode → Scanner → Round) (s : Scanner) where
  pub loop_at : ℕ → Mode → Scanned × Scanner
  loop_at n m = mode_loop (left s + 1 - n) round m (advance n s)

  pub run_loop-loop_at : run_loop round s ≡ loop_at 0 init_mode
  unfolding run_loop loop_at
  run_loop-loop_at = rw advance_zero (
      ap (λ k. mode_loop k round init_mode s)
        (let e : left s + 1 ≡ left s + 1 - 0 = omega arith in e))

  pub loop_at_goes :
      (n : ℕ) (m m' : Mode)
      → n ≤ left s
      → round m (advance n s) ≡ go_on m'
      → loop_at n m ≡ loop_at (n + 1) m'
  unfolding loop_at
  loop_at_goes n m m' h e =
      let f : left s + 1 - n ≡ suc (left s + 1 - (n + 1)) = omega arith in
      ap (λ k. mode_loop k round m (advance n s)) f
      ∙ mode_loop_goes (left s + 1 - (n + 1)) round m m' (advance n s) e
      ∙ ap (λ t. mode_loop (left s + 1 - (n + 1)) round m' t) (advance-read_rune n s)

  pub loop_at_returns :
      (n : ℕ) (m : Mode) (r : Scanned) (t : Scanner)
      → n ≤ left s
      → round m (advance n s) ≡ return r t
      → loop_at n m ≡ (r, t)
  unfolding loop_at
  loop_at_returns n m r t h e =
      let f : left s + 1 - n ≡ suc (left s + 1 - (n + 1)) = omega arith in
      ap (λ k. mode_loop k round m (advance n s)) f
      ∙ mode_loop_returns (left s + 1 - (n + 1)) round m (advance n s) r t e

  skips_by :
      (d n : ℕ) (m : Mode)
      → n + d ≤ left s
      → ((i : ℕ) → n ≤ i → i < n + d → round m (advance i s) ≡ go_on m)
      → loop_at n m ≡ loop_at (n + d) m
  skips_by zero n m h e = ap (λ k. loop_at k m) (let f : n ≡ n + 0 = omega arith in f)
  skips_by (suc d) n m h e =
      loop_at_goes n m m (omega arith) (e n (omega arith) (omega arith))
      ∙ skips_by d (n + 1) m (omega arith) (λ i lo hi. e i (omega arith) (omega arith))
      ∙ ap (λ k. loop_at k m) (let f : n + 1 + d ≡ n + suc d = omega arith in f)

  -- Rounds that keep the mode read on.
  pub loop_at_skips :
      (n k : ℕ) (m : Mode)
      → n ≤ k
      → k ≤ left s
      → ((i : ℕ) → n ≤ i → i < k → round m (advance i s) ≡ go_on m)
      → loop_at n m ≡ loop_at k m
  loop_at_skips n k m h l e =
      skips_by (k - n) n m (omega arith) (λ i lo hi. e i lo (omega arith))
      ∙ ap (λ j. loop_at j m) (let f : n + (k - n) ≡ k = omega arith in f)
