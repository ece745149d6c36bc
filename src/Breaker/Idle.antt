-- ===== src/Breaker/Idle.antt =====
-- The breaker of core/breaker/googlebreaker.go over timed requests: a healthy or an idle one lets every
-- request pass.
use mathlib.Core.Path.{ap₂}
use fastgozero.Prelude.{
  ℕ, zero, suc, ◌+◌, ◌-◌, ◌/◌, ◌≤◌, ◌≡◌, refl, ap, ◌∙◌, ◌&&◌, Bool, true, false, List, [], ◌∷◌,
  some, inl, inr, arith, ◌==◌, if◌then◌else◌, Bool-cases,
}
use fastgozero.Collection.RollingWindow.{RollingWindow, new_rolling_window, reduce}
use fastgozero.Collection.RollingWindow.Slots.{slots}
use fastgozero.Collection.RollingWindow.Timed.{interval_at, last_of, Ordered, record_at, add_all}
use fastgozero.Collection.RollingWindow.Timed
use fastgozero.Collection.RollingWindow.History.{reduce-add_all}
use fastgozero.Breaker.{
  Bucket, GoogleBreaker, marks, no_marks, window, buckets, success_mark, count_buckets, history,
  accept, add_mark,
}
use fastgozero.Breaker.History.{sum_of, counts_of, zero_result, count_buckets_lem}
use fastgozero.Breaker.Accept.{accept_protects}

-- Every event is a success.
abbrev pub AllSuccess : List (ℕ × ℕ) → Type 0
AllSuccess [] = Unit
AllSuccess ((t, v) ∷ events) = (v ≡ success_mark) × AllSuccess events

-- A bucket of successes only.
abbrev Healthy : Bucket → Type 0
Healthy b = b.sum ≡ b.success

history-Healthy :
    (t0 interval n : ℕ) (events : List (ℕ × ℕ)) (h : ℕ → Bucket)
    → AllSuccess events
    → ((q : ℕ) → Healthy (h q))
    → (q : ℕ) → Healthy (Timed.history marks t0 interval n events h q)
unfolding Timed.history record_at add_mark
history-Healthy t0 interval n [] h ok start q = start q
history-Healthy t0 interval n ((t, v) ∷ events) h (one, ok) start q =
    history-Healthy t0 interval n events (record_at marks n (interval_at t0 interval t) v h) ok
      recorded q
  where
    recorded : (q : ℕ) → Healthy (record_at marks n (interval_at t0 interval t) v h q)
    recorded q = elim (Bool-cases (interval_at t0 interval t + (n - 1) == q)) [
      | inl here ↦ rw here (rw one (ap (λ s. s + 1) (start q)))
      | inr away ↦ rw away (start q)
    ]

slots-Healthy :
    (h : ℕ → Bucket) (p c : ℕ)
    → ((q : ℕ) → Healthy (h q))
    → sum_of (λ b. b.sum) (slots h p c) ≡ sum_of (λ b. b.success) (slots h p c)
unfolding slots sum_of
slots-Healthy h p zero ok = refl
slots-Healthy h p (suc c) ok = ap₂ ◌+◌ (ok p) (slots-Healthy h (p + 1) c ok)

not_ignored : {A : Type 0} (b : Bool) (x y : A) → (if b && false then x else y) ≡ y
not_ignored true x y = refl
not_ignored false x y = refl

-- The breaker with the window `w` after the events.
abbrev pub after : List (ℕ × ℕ) → RollingWindow Bucket → ℕ → GoogleBreaker
after events w last_pass = record { stat = add_all marks events w; last_pass = last_pass }

-- What history finds, if the buckets are known.
history_of :
    (now : ℕ) (b : GoogleBreaker) (l : List Bucket)
    → reduce marks now b.stat ≡ l
    → history now b ≡ counts_of l
unfolding history
history_of now b l e = ap (λ m. count_buckets m zero_result) e ∙ count_buckets_lem l

-- A breaker passes every request, whatever the draw, when it has as many requests in its window as
-- accepted ones.
accept_as_many :
    (now since pass u : ℕ) (b : GoogleBreaker) (l : List Bucket)
    → reduce marks now b.stat ≡ l
    → sum_of (λ b. b.sum) l ≡ sum_of (λ b. b.success) l
    → accept now since pass u b ≡ (b, true)
accept_as_many now since pass u b l e same =
    let counts = history_of now b l e in
    accept_protects now since pass u b
      (omega (arith, same, ap (λ r. r.total) counts, ap (λ r. r.accepts) counts))

module _ (t0 : ℕ) (events : List (ℕ × ℕ)) (now since pass u last_pass : ℕ)
    {w : RollingWindow Bucket}
    (made : new_rolling_window marks buckets (window / buckets) false t0 ≡ some w)
    (ordered : Ordered t0 events) (le : last_of t0 events ≤ now) where
  abbrev entries : ℕ → Bucket
  entries = Timed.history marks t0 (window / buckets) buckets events (λ q. no_marks)

  abbrev last_interval : ℕ
  last_interval = interval_at t0 (window / buckets) (last_of t0 events)

  recent :
      reduce marks now (after events w last_pass).stat
      ≡ slots entries
          (interval_at t0 (window / buckets) now)
          (last_interval + buckets - interval_at t0 (window / buckets) now)
  recent =
      reduce-add_all marks (λ b. refl) buckets (window / buckets) false t0 events now {w = w}
        (omega arith) made ordered le
      ∙ not_ignored (interval_at t0 (window / buckets) now == last_interval) _ _

  -- While every request so far was a success, every request passes, whatever their number.
  accept_healthy :
      AllSuccess events
      → accept now since pass u (after events w last_pass) ≡ (after events w last_pass, true)
  accept_healthy ok = accept_as_many now since pass u (after events w last_pass) _ recent (
      slots-Healthy entries _ _
        (history-Healthy t0 (window / buckets) buckets events (λ q. no_marks) ok (λ q. refl)))
