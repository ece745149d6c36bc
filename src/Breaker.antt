-- ===== src/Breaker.antt =====
-- core/breaker: googleBreaker (googlebreaker.go, bucket.go), which rejects requests by the share of
-- those accepted in the last ten seconds. Its floating-point numbers are exact fractions here: k and
-- minK are hundredths, a weight counts 4,000ths, and a draw of Float64 is `u` of `resolution`. The
-- readings of the clock are arguments: of Reduce, of Since and of the new lastPass.
pub mod History
pub mod Accept
pub mod Idle
pub mod Reasons
mod Tests
use fastgozero.Prelude.{
  ℕ, zero, suc, ◌+◌, ◌-◌, ◌*◌, ◌/◌, Bool, true, false, List, [], ◌∷◌, Option, none, some, ◌&&◌, ltb,
  leb, ◌==◌, if◌then◌else◌,
}
use fastgozero.Collection.RollingWindow.{
  BucketInterface, RollingWindow, new_rolling_window, add, reduce,
}

-- bucket
pub record Bucket : Type 0 where
  pub sum : ℕ
  pub success : ℕ
  pub failure : ℕ
  pub drop : ℕ

-- The values that mark a request: success, fail, drop.
abbrev pub success_mark : ℕ
success_mark = 0

abbrev pub fail_mark : ℕ
fail_mark = 1

abbrev pub drop_mark : ℕ
drop_mark = 2

-- bucket.succeed, bucket.fail, bucket.drop
unfoldable pub succeed : Bucket → Bucket
succeed b = record b { sum = b.sum + 1; success = b.success + 1 }

unfoldable pub fail_one : Bucket → Bucket
fail_one b = record b { sum = b.sum + 1; failure = b.failure + 1 }

unfoldable pub drop_one : Bucket → Bucket
drop_one b = record b { sum = b.sum + 1; drop = b.drop + 1 }

-- bucket.Add
unfoldable pub add_mark : ℕ → Bucket → Bucket
unfolding succeed fail_one drop_one
add_mark v b =
    if v == fail_mark then fail_one b else (if v == drop_mark then drop_one b else succeed b)

-- bucket.Reset; a new bucket is the same.
abbrev pub no_marks : Bucket
no_marks = record { sum = 0; success = 0; failure = 0; drop = 0 }

abbrev pub marks : BucketInterface ℕ Bucket
marks = record { fresh = no_marks; add = add_mark; reset = λ b. no_marks }

-- The constants: in nanoseconds, and k and minK in hundredths.
abbrev pub window : ℕ
window = 10000000000

abbrev pub buckets : ℕ
buckets = 40

abbrev pub force_pass_duration : ℕ
force_pass_duration = 1000000000

abbrev pub k : ℕ
k = 150

abbrev pub min_k : ℕ
min_k = 110

abbrev pub protection : ℕ
protection = 5

-- googleBreaker: the window, and lastPass.
pub record GoogleBreaker : Type 0 where
  pub stat : RollingWindow Bucket
  pub last_pass : ℕ

-- windowResult
pub record WindowResult : Type 0 where
  pub accepts : ℕ
  pub total : ℕ
  pub failing_buckets : ℕ
  pub working_buckets : ℕ

-- newGoogleBreaker
unfoldable pub new_google_breaker : ℕ → Option GoogleBreaker
new_google_breaker now = elim (new_rolling_window marks buckets (window / buckets) false now) [
  | none ↦ none
  | some w ↦ some (record { stat = w; last_pass = 0 })
]

-- The callback of history.
unfoldable pub count_bucket : Bucket → WindowResult → WindowResult
count_bucket b r = record {
  accepts = r.accepts + b.success;
  total = r.total + b.sum;
  failing_buckets =
      if ltb 0 b.success
      then 0
      else (if ltb 0 b.failure then r.failing_buckets + 1 else r.failing_buckets);
  working_buckets =
      if ltb 0 b.failure
      then 0
      else (if ltb 0 b.success then r.working_buckets + 1 else r.working_buckets);
}

unfoldable pub count_buckets : List Bucket → WindowResult → WindowResult
unfolding count_bucket
count_buckets [] r = r
count_buckets (b ∷ l) r = count_buckets l (count_bucket b r)

-- history
unfoldable pub history : ℕ → GoogleBreaker → WindowResult
history now b =
    count_buckets (reduce marks now b.stat)
      (record { accepts = 0; total = 0; failing_buckets = 0; working_buckets = 0 })

-- `mathx.AtLeast(w, minK)`, times 100 * buckets
unfoldable pub weight : WindowResult → ℕ
weight h =
    let w = k * buckets - (k - min_k) * h.failing_buckets in
    if ltb w (min_k * buckets) then min_k * buckets else w

-- The numerator of dropRatio over `100 * buckets * (total + 1)`; 0 where it is negative.
unfoldable pub drop_excess : WindowResult → ℕ
drop_excess h = 100 * buckets * h.total - (100 * buckets * protection + weight h * h.accepts)

abbrev pub resolution : ℕ
resolution = 9007199254740992

-- TrueOnProba for the product of dropRatio and the share of the buckets that are not working.
unfoldable pub true_on_proba : ℕ → WindowResult → Bool
true_on_proba u h =
    ltb (u * (100 * buckets * (h.total + 1) * buckets))
      (drop_excess h * (buckets - h.working_buckets) * resolution)

-- The part of accept after history: the breaker, and whether the request may pass.
unfoldable pub decide : WindowResult → ℕ → ℕ → ℕ → GoogleBreaker → GoogleBreaker × Bool
decide h since pass u b =
    if drop_excess h == 0
    then (b, true)
    else (if ltb 0 b.last_pass && ltb force_pass_duration (since - b.last_pass)
        then (record b { last_pass = pass }, true)
        else (if true_on_proba u h then (b, false) else (record b { last_pass = pass }, true)))

-- accept
unfoldable pub accept : ℕ → ℕ → ℕ → ℕ → GoogleBreaker → GoogleBreaker × Bool
accept now since pass u b = decide (history now b) since pass u b

-- markSuccess, markFailure and markDrop, with the two readings of Add.
unfoldable pub mark : ℕ → ℕ → ℕ → GoogleBreaker → GoogleBreaker
mark now now' v b = record b { stat = add marks now now' v b.stat }

-- What a request does: it returns an error or none, or it panics.
pub data Outcome (E : Type 0) : Type 0 where
  returned : Option E → Outcome E
  panicked : Outcome E

-- The readings of the clock and the draw of one doReq.
pub record Draws : Type 0 where
  pub now : ℕ
  pub since : ℕ
  pub pass : ℕ
  pub u : ℕ
  pub mark_now : ℕ
  pub mark_now' : ℕ

module _ {E : Type 0} (unavailable : E) where
  -- doReq: the breaker, whether req was called, and the outcome. A panic of req passes through after
  -- the deferred mark.
  unfoldable pub do_req :
      Draws
      → Outcome E
      → Option (E → Option E)
      → (Option E → Bool)
      → GoogleBreaker
      → GoogleBreaker × Bool × Outcome E
  do_req d req fallback acceptable b =
      let (b', pass) = accept d.now d.since d.pass d.u b in
      if pass
      then (elim req [
        | panicked ↦ (mark d.mark_now d.mark_now' fail_mark b', true, panicked)
        | returned e ↦ (
          mark d.mark_now d.mark_now' (if acceptable e then success_mark else fail_mark) b',
          true,
          returned e,
        )
      ])
      else (let b'' = mark d.mark_now d.mark_now' drop_mark b' in
          elim fallback [
            | none ↦ (b'', false, returned (some unavailable))
            | some f ↦ (b'', false, returned (f unavailable))
          ])

  -- allow: the breaker, and the error; a promise marks success or failure later.
  unfoldable pub allow : Draws → GoogleBreaker → GoogleBreaker × Option E
  allow d b =
      let (b', pass) = accept d.now d.since d.pass d.u b in
      if pass then (b', none) else (mark d.mark_now d.mark_now' drop_mark b', some unavailable)
