-- ===== src/Breaker/History.antt =====
-- What history of core/breaker/googlebreaker.go counts in the buckets of its window.
use fastgozero.Prelude.{
  ℕ, suc, ◌+◌, ◌≡◌, refl, ◌∙◌, Bool, true, false, List, [], ◌∷◌, inl, inr, ◌||◌, arith, ltb,
  if◌then◌else◌, Bool-cases,
}
use fastgozero.Breaker.{Bucket, WindowResult, count_bucket, count_buckets}

unfoldable pub sum_of : (Bucket → ℕ) → List Bucket → ℕ
sum_of f [] = 0
sum_of f (b ∷ l) = f b + sum_of f l

unfoldable pub any_of : (Bucket → Bool) → List Bucket → Bool
any_of p [] = false
any_of p (b ∷ l) = p b || any_of p l

unfoldable pub count_of : (Bucket → Bool) → List Bucket → ℕ
count_of p [] = 0
count_of p (b ∷ l) = if p b then suc (count_of p l) else count_of p l

-- The buckets after the last one with `p`; all of them if there is none.
unfoldable pub after_last : (Bucket → Bool) → List Bucket → List Bucket
unfolding any_of
after_last p [] = []
after_last p (b ∷ l) = if p b || any_of p l then after_last p l else b ∷ l

abbrev pub has_success : Bucket → Bool
has_success b = ltb 0 b.success

abbrev pub has_failure : Bucket → Bool
has_failure b = ltb 0 b.failure

-- The counter of the loop: `p` sets it to 0, else `q` raises it.
unfoldable runs : (Bucket → Bool) → (Bucket → Bool) → List Bucket → ℕ → ℕ
runs p q [] n = n
runs p q (b ∷ l) n = runs p q l (if p b then 0 else (if q b then n + 1 else n))

after_last-none : (p : Bucket → Bool) (l : List Bucket) → any_of p l ≡ false → after_last p l ≡ l
unfolding any_of after_last
after_last-none p [] h = refl
after_last-none p (b ∷ l) h = rw h refl

runs_lem :
    (p q : Bucket → Bool) (l : List Bucket) (n : ℕ)
    → runs p q l n ≡ (if any_of p l then 0 else n) + count_of q (after_last p l)
unfolding runs any_of count_of after_last
runs_lem p q [] n = omega arith
runs_lem p q (b ∷ l) n = elim (Bool-cases (p b)) [
  | inl yes_p ↦ rw yes_p (runs_lem p q l 0 ∙ ground arith)
  | inr no_p ↦ elim (Bool-cases (any_of p l)) [
    | inl later ↦ rw no_p (rw later (runs_lem p q l _ ∙ rw later refl))
    | inr never ↦ rw no_p (rw never (runs_lem p q l _ ∙ rw never (whole never)))
  ]
]
  where
    whole :
        any_of p l ≡ false
        → (if q b then n + 1 else n) + count_of q (after_last p l)
          ≡ n + (if q b then suc (count_of q l) else count_of q l)
    whole never = rw (after_last-none p l never) (ground arith)

-- The counts over the buckets `l`, oldest first: what was accepted, all marks, the buckets with a
-- failure after the last with a success, and those with a success after the last with a failure.
abbrev pub counts_of : List Bucket → WindowResult
counts_of l = record {
  accepts = sum_of (λ b. b.success) l;
  total = sum_of (λ b. b.sum) l;
  failing_buckets = count_of has_failure (after_last has_success l);
  working_buckets = count_of has_success (after_last has_failure l);
}

abbrev pub zero_result : WindowResult
zero_result = record { accepts = 0; total = 0; failing_buckets = 0; working_buckets = 0 }

pub same_result :
    (r r' : WindowResult)
    → r.accepts ≡ r'.accepts
    → r.total ≡ r'.total
    → r.failing_buckets ≡ r'.failing_buckets
    → r.working_buckets ≡ r'.working_buckets
    → r ≡ r'
same_result r r' a t f w =
    λ i. record { accepts = a i; total = t i; failing_buckets = f i; working_buckets = w i }

counted_from :
    (l : List Bucket) (r : WindowResult)
    → count_buckets l r ≡ record {
      accepts = r.accepts + sum_of (λ b. b.success) l;
      total = r.total + sum_of (λ b. b.sum) l;
      failing_buckets = runs has_success has_failure l r.failing_buckets;
      working_buckets = runs has_failure has_success l r.working_buckets;
    }
unfolding count_buckets count_bucket sum_of runs
counted_from [] r = same_result r _ (omega arith) (omega arith) refl refl
counted_from (b ∷ l) r =
    counted_from l (count_bucket b r) ∙ same_result _ _ (omega arith) (omega arith) refl refl

-- The loop of history finds exactly these counts.
pub count_buckets_lem : (l : List Bucket) → count_buckets l zero_result ≡ counts_of l
count_buckets_lem l =
    counted_from l zero_result
    ∙ same_result _ _ (omega arith) (omega arith)
        (runs_lem has_success has_failure l 0 ∙ dropped (any_of has_success l) _)
        (runs_lem has_failure has_success l 0 ∙ dropped (any_of has_failure l) _)
  where
    dropped : (b : Bool) (n : ℕ) → (if b then 0 else 0) + n ≡ n
    dropped true n = omega arith
    dropped false n = omega arith
