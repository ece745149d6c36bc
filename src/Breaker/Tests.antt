-- ===== src/Breaker/Tests.antt =====
-- Runs of core/breaker.
use fastgozero.Prelude.{ℕ, ◌≡◌, refl, [], ◌∷◌, ◌⊎◌, true, false, none, arith, replicate, take}
use fastgozero.Prelude.Cyclic.{cycle}
use fastgozero.Collection.RollingWindow.{RollingWindow, reduce, span}
use fastgozero.Breaker.{
  Bucket, GoogleBreaker, Draws, no_marks, returned, count_buckets, history, accept, do_req, weight,
  drop_excess, true_on_proba, decide,
}
use fastgozero.Breaker.History.{counts_of, zero_result, count_buckets_lem}
use fastgozero.Breaker.Accept.{
  Overloaded, Served, Rejected, accept_protects, accept_rejects, do_req_lem,
}
use fastgozero.Breaker.Reasons.{lines, add_reasons, new_error_window, lines-add_reasons}

abbrev with_bucket : Bucket → RollingWindow Bucket
with_bucket b = record {
  size = 40;
  buckets = b ∷ replicate 39 no_marks;
  interval = 250000000;
  offset = 0;
  ignore_current = false;
  last_time = 1;
}

-- A hundred failures just now.
abbrev failing : GoogleBreaker
failing = record {
  stat = with_bucket (record { sum = 100; success = 0; failure = 100; drop = 0 });
  last_pass = 0;
}

-- Five failures just now.
abbrev few : GoogleBreaker
few = record {
  stat = with_bucket (record { sum = 5; success = 0; failure = 5; drop = 0 });
  last_pass = 0;
}

failing-rejects : (accept 7 7 7 0 failing).1 ≡ false
unfolding accept decide history drop_excess weight true_on_proba count_buckets reduce span cycle
failing-rejects = refl

-- A second after a forced pass, one more request passes.
failing-forced :
    accept 7 2000000000 2000000001 0 (record failing { last_pass = 1 })
    ≡ (record failing { last_pass = 2000000001 }, true)
unfolding accept decide history drop_excess weight true_on_proba count_buckets reduce span cycle
failing-forced = refl

accept_protects_example : accept 7 7 7 0 few ≡ (few, true)
accept_protects_example =
    accept_protects 7 7 7 0 few (unfold history count_buckets reduce span cycle in omega arith)

accept_rejects_example :
    Overloaded 7 failing (history 7 failing) × ((accept 7 7 7 0 failing).0 ≡ failing)
accept_rejects_example = accept_rejects 7 7 7 0 failing failing-rejects

abbrev draws : Draws
draws = record { now = 7; since = 7; pass = 7; u = 0; mark_now = 8; mark_now' = 8 }

do_req_lem_example :
    let r = do_req {E = ℕ} 503 draws (returned none) none (λ e. true) failing in
    Served {E = ℕ} 503 draws (returned none) (λ e. true) failing r
    ⊎ Rejected 503 draws none failing r
do_req_lem_example = do_req_lem 503 draws (returned none) none (λ e. true) failing

abbrev start : RollingWindow Bucket
start = with_bucket no_marks

count_buckets_lem_example : count_buckets (no_marks ∷ []) zero_result ≡ counts_of (no_marks ∷ [])
count_buckets_lem_example = count_buckets_lem (no_marks ∷ [])

lines-add_reasons_example :
    lines {R = ℕ} 0 (add_reasons 0 (6 ∷ 5 ∷ 4 ∷ 3 ∷ 2 ∷ 1 ∷ []) (new_error_window 0))
    ≡ take 5 (6 ∷ 5 ∷ 4 ∷ 3 ∷ 2 ∷ 1 ∷ [])
lines-add_reasons_example = lines-add_reasons 0 (6 ∷ 5 ∷ 4 ∷ 3 ∷ 2 ∷ 1 ∷ [])
