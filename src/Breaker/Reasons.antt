-- ===== src/Breaker/Reasons.antt =====
-- core/breaker/breaker.go: errorWindow, the last five reasons for an error. A reason is what add
-- writes, with its time. The lock makes each method one step.
use mathlib.Core.Path.{ap₂}
use fastgozero.Prelude.{
  ℕ, zero, suc, ◌+◌, ◌-◌, ◌%◌, ◌≤◌, ◌<◌, ◌≡◌, ◌≢◌, refl, ap, ◌∙◌, List, [], ◌∷◌, arith, ltb,
  if◌then◌else◌, length, get_or, set, take, replicate, length-set, get_or-set_self, get_or-set_ne,
}
use fastgozero.Prelude.Cyclic.{mod-lt'}

abbrev pub num_history_reasons : ℕ
num_history_reasons = 5

-- errorWindow; `reasons` is an array of five.
pub record ErrorWindow (R : Type 0) : Type 0 where
  pub reasons : List R
  pub index : ℕ
  pub count : ℕ

-- mathx.MinInt
unfoldable pub min_int : ℕ → ℕ → ℕ
min_int a b = if ltb a b then a else b

module _ {R : Type 0} (blank : R) where
  -- A zero errorWindow.
  unfoldable pub new_error_window : ErrorWindow R
  new_error_window = record { reasons = replicate num_history_reasons blank; index = 0; count = 0 }

  -- errorWindow.add
  unfoldable pub add_reason : R → ErrorWindow R → ErrorWindow R
  unfolding min_int
  add_reason r ew = record {
    reasons = set ew.reasons ew.index r;
    index = (ew.index + 1) % num_history_reasons;
    count = min_int (ew.count + 1) num_history_reasons;
  }

  -- The loop of String, where `i` is `from - 1 - numHistoryReasons` with `n` rounds left. (The source
  -- goes below zero; here the numbers are greater by the number of reasons.)
  unfoldable pub read_back : ErrorWindow R → ℕ → ℕ → List R
  read_back ew from zero = []
  read_back ew from (suc n) =
      get_or ew.reasons ((from - 1) % num_history_reasons) blank ∷ read_back ew (from - 1) n

  -- String, before the lines are joined.
  unfoldable pub lines : ErrorWindow R → List R
  lines ew = read_back ew (ew.index + num_history_reasons) ew.count

  -- `add` for each reason of a list, whose first is the newest.
  unfoldable pub add_reasons : List R → ErrorWindow R → ErrorWindow R
  add_reasons [] ew = ew
  add_reasons (r ∷ older) ew = add_reason r (add_reasons older ew)

  -- The window holds the newest reasons of `l`: so many as it counts.
  record Holds (l : List R) (ew : ErrorWindow R) : Type 0 where
    sized : length ew.reasons ≡ num_history_reasons
    index_in : ew.index < num_history_reasons
    counted : ew.count ≡ min_int (length l) num_history_reasons
    newest : (n : ℕ) → n ≤ ew.count → read_back ew (ew.index + num_history_reasons) n ≡ take n l

  -- After an add, what was read from the old index on is read from one place further.
  read_back-add_reason :
      (r : R) (ew : ErrorWindow R) (d m : ℕ)
      → ew.index < num_history_reasons
      → d + m ≤ 4
      → read_back (add_reason r ew) ((ew.index + 1) % num_history_reasons + 4 - d) m
        ≡ read_back ew (ew.index + num_history_reasons - d) m
  unfolding read_back add_reason
  read_back-add_reason r ew d zero h le = refl
  read_back-add_reason r ew d (suc m) h le =
      ap₂ ◌∷◌ first (later (read_back-add_reason r ew (d + 1) m h (omega (arith, le))))
    where
      place :
          ((ew.index + 1) % num_history_reasons + 4 - d - 1) % num_history_reasons
          ≡ (ew.index + num_history_reasons - d - 1) % num_history_reasons
      place = omega (arith, h, le)

      other : ew.index ≢ (ew.index + num_history_reasons - d - 1) % num_history_reasons
      other e = omega (arith, h, le, e)

      first :
          get_or
            (add_reason r ew).reasons
            (((ew.index + 1) % num_history_reasons + 4 - d - 1) % num_history_reasons)
            blank
          ≡ get_or ew.reasons ((ew.index + num_history_reasons - d - 1) % num_history_reasons) blank
      first =
          ap (λ i. get_or (set ew.reasons ew.index r) i blank) place
          ∙ get_or-set_ne ew.reasons ew.index _ r blank other

      later :
          read_back (add_reason r ew) ((ew.index + 1) % num_history_reasons + 4 - (d + 1)) m
            ≡ read_back ew (ew.index + num_history_reasons - (d + 1)) m
          → read_back (add_reason r ew) ((ew.index + 1) % num_history_reasons + 4 - d - 1) m
            ≡ read_back ew (ew.index + num_history_reasons - d - 1) m
      later rest =
          ap (λ i. read_back (add_reason r ew) i m) (omega (arith, le))
          ∙ rest
          ∙ ap (λ i. read_back ew i m) (omega (arith, le))

  add_reason-Holds :
      (r : R) (l : List R) (ew : ErrorWindow R) → Holds l ew → Holds (r ∷ l) (add_reason r ew)
  unfolding min_int
  add_reason-Holds r l ew h = record {
    sized = unfold add_reason in length-set ew.reasons ew.index r ∙ h.sized;
    index_in = unfold add_reason in mod-lt' (ew.index + 1) num_history_reasons (omega arith);
    counted = unfold add_reason in ground (arith, h.counted);
    newest = shown;
  }
    where
      shown :
          (n : ℕ)
          → n ≤ (add_reason r ew).count
          → read_back (add_reason r ew) ((add_reason r ew).index + num_history_reasons) n
            ≡ take n (r ∷ l)
      shown zero le = unfold read_back in refl
      shown (suc m) le = unfold read_back add_reason in ap₂ ◌∷◌ newest_first later
        where
          place :
              ((ew.index + 1) % num_history_reasons + num_history_reasons - 1) % num_history_reasons
              ≡ ew.index
          place = omega (arith, h.index_in)

          few : (m ≤ 4) × (m ≤ ew.count)
          few = unfold add_reason in (ground (arith, le), ground (arith, le))

          newest_first :
              get_or
                (set ew.reasons ew.index r)
                (((ew.index + 1) % num_history_reasons + num_history_reasons - 1)
                  % num_history_reasons)
                blank
              ≡ r
          newest_first =
              ap (λ i. get_or (set ew.reasons ew.index r) i blank) place
              ∙ get_or-set_self ew.reasons ew.index r blank (omega (arith, h.sized, h.index_in))

          later :
              read_back
                (add_reason r ew)
                ((ew.index + 1) % num_history_reasons + num_history_reasons - 1)
                m
              ≡ take m l
          later =
              ap (λ i. read_back (add_reason r ew) i m) (omega arith)
              ∙ read_back-add_reason r ew 0 m h.index_in (omega (arith, few.0))
              ∙ ap (λ i. read_back ew i m) {x = ew.index + num_history_reasons - 0}
                  {y = ew.index + num_history_reasons} (omega arith)
              ∙ h.newest m few.1

  add_reasons-Holds : (l : List R) → Holds l (add_reasons l new_error_window)
  unfolding add_reasons
  add_reasons-Holds [] = record {
    sized = unfold new_error_window in refl;
    index_in = unfold new_error_window in omega arith;
    counted = unfold new_error_window min_int in refl;
    newest = λ n le. none_yet n le;
  }
    where
      none_yet :
          (n : ℕ)
          → n ≤ new_error_window.count
          → read_back new_error_window (new_error_window.index + num_history_reasons) n ≡ take n []
      none_yet zero le = unfold read_back in refl
      none_yet (suc n) le = absurd (unfold new_error_window in omega (arith, le))
  add_reasons-Holds (r ∷ l) =
      add_reason-Holds r l (add_reasons l new_error_window) (add_reasons-Holds l)

  take-nil : (n : ℕ) → take {A = R} n [] ≡ []
  take-nil zero = refl
  take-nil (suc n) = refl

  take_min : (n : ℕ) (l : List R) → take (min_int (length l) n) l ≡ take n l
  unfolding min_int
  take_min zero l = ground arith
  take_min (suc n) [] = take-nil _
  take_min (suc n) (r ∷ l) = ground (arith, take_min n l)

  -- After any reasons, String lists the last five of them (all, if they were fewer), newest first.
  pub lines-add_reasons :
      (l : List R) → lines (add_reasons l new_error_window) ≡ take num_history_reasons l
  unfolding lines
  lines-add_reasons l =
      let h = add_reasons-Holds l in
      h.newest (add_reasons l new_error_window).count (omega arith)
      ∙ ap (λ n. take n l) h.counted
      ∙ take_min num_history_reasons l
