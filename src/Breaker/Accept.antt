-- ===== src/Breaker/Accept.antt =====
-- When accept of core/breaker/googlebreaker.go lets a request pass.
use native.Mathlib.Nat.{mul-le-mul_right}
use fastgozero.Prelude.{
  ℕ, Option, none, some, ◌+◌, ◌-◌, ◌*◌, ◌≤◌, ◌<◌, ◌≡◌, ◌≢◌, refl, ap, ◌∙◌, Bool, true, false, inl,
  inr, ◌⊎◌, ◌&&◌, arith, ltb, ◌==◌, if◌then◌else◌, Bool-cases, dec_lt, ℕ_discrete,
}
use fastgozero.Collection.RollingWindow.{add}
use fastgozero.Breaker.{
  GoogleBreaker, WindowResult, Draws, Outcome, marks, mark, buckets, k, min_k, protection,
  resolution, force_pass_duration, success_mark, fail_mark, drop_mark, history, weight, drop_excess,
  true_on_proba, decide, accept, do_req, returned, panicked,
}

-- The weight of an accepted request is between minK and k.
weight_bounds : (h : WindowResult) → (min_k * buckets ≤ weight h) × (weight h ≤ k * buckets)
unfolding weight
weight_bounds h = (ground arith, ground arith)

enough : (h : WindowResult) → 10 * h.total ≤ 10 * protection + 11 * h.accepts → drop_excess h ≡ 0
unfolding drop_excess
enough h le = omega (arith, le, mul-le-mul_right h.accepts (weight_bounds h).0)

too_many : (h : WindowResult) → drop_excess h ≢ 0 → 10 * protection + 11 * h.accepts < 10 * h.total
too_many h ne = elim (dec_lt (10 * protection + 11 * h.accepts) (10 * h.total)) [
  | yes lt ↦ lt
  | no le ↦ absurd (ne (enough h (omega (arith, le))))
]

-- A request passes, and nothing changes, if the window has no more requests than five and 1.1 for
-- each accepted one.
pub accept_protects :
    (now since pass u : ℕ) (b : GoogleBreaker)
    → 10 * (history now b).total ≤ 10 * protection + 11 * (history now b).accepts
    → accept now since pass u b ≡ (b, true)
unfolding accept decide
accept_protects now since pass u b h = rw (enough (history now b) h) refl

-- The window has more requests than five and 1.1 for each accepted one, not all forty buckets work,
-- and no request passed by force before, or the last one did within a second.
abbrev pub Overloaded : ℕ → GoogleBreaker → WindowResult → Type 0
Overloaded since b h =
    (10 * protection + 11 * h.accepts < 10 * h.total)
    × (h.working_buckets < buckets)
    × ((b.last_pass ≡ 0) ⊎ (since ≤ b.last_pass + force_pass_duration))

not_working : (h : WindowResult) (u : ℕ) → true_on_proba u h ≡ true → h.working_buckets < buckets
unfolding true_on_proba
not_working h u hit = elim (dec_lt h.working_buckets buckets) [
  | yes lt ↦ lt
  | no le ↦ absurd (ground (arith, hit, nothing le))
]
  where
    nothing :
        (h.working_buckets < buckets → ⊥)
        → drop_excess h * (buckets - h.working_buckets) * resolution ≡ 0
    nothing le =
        ap (λ n. drop_excess h * n * resolution) {x = buckets - h.working_buckets} {y = 0}
          (omega (arith, le))
        ∙ omega arith

decide_rejects :
    (h : WindowResult) (since pass u : ℕ) (b : GoogleBreaker)
    → (decide h since pass u b).1 ≡ false
    → Overloaded since b h × ((decide h since pass u b).0 ≡ b)
unfolding decide
decide_rejects h since pass u b = elim (Bool-cases (drop_excess h == 0)) [
  | inl fine ↦ rw fine (λ e. absurd (true_not_false e))
  | inr bad ↦
      elim (Bool-cases (ltb 0 b.last_pass && ltb force_pass_duration (since - b.last_pass))) [
        | inl force ↦ rw bad (rw force (λ e. absurd (true_not_false e)))
        | inr wait ↦ elim (Bool-cases (true_on_proba u h)) [
          | inr lucky ↦ rw bad (rw wait (rw lucky (λ e. absurd (true_not_false e))))
          | inl hit ↦ rw bad (
              rw wait (
                rw hit (λ e.
                  ((too_many h (ground (arith, bad)), not_working h u hit, recent wait), refl))))
        ]
      ]
]
  where
    true_not_false : true ≡ false → ⊥
    true_not_false e = cc

    recent :
        (ltb 0 b.last_pass && ltb force_pass_duration (since - b.last_pass)) ≡ false
        → (b.last_pass ≡ 0) ⊎ (since ≤ b.last_pass + force_pass_duration)
    recent wait = elim (ℕ_discrete b.last_pass 0) [
      | yes never ↦ inl never
      | no once ↦ inr (ground (arith, wait))
    ]

-- A request is rejected only if the window has more requests than five and 1.1 for each accepted one,
-- not all forty buckets work, and no request passed by force before, or the last one did within a
-- second; a rejection leaves the breaker as it is.
pub accept_rejects :
    (now since pass u : ℕ) (b : GoogleBreaker)
    → (accept now since pass u b).1 ≡ false
    → Overloaded since b (history now b) × ((accept now since pass u b).0 ≡ b)
unfolding accept
accept_rejects now since pass u b = decide_rejects (history now b) since pass u b

accept-stat :
    (now since pass u : ℕ) (b : GoogleBreaker) → (accept now since pass u b).0.stat ≡ b.stat
unfolding accept decide
accept-stat now since pass u b = ground arith

module _ {E : Type 0} (unavailable : E) where
  -- How a request that ran is marked.
  abbrev pub mark_of : (Option E → Bool) → Outcome E → ℕ
  mark_of acceptable panicked = fail_mark
  mark_of acceptable (returned e) = if acceptable e then success_mark else fail_mark

  -- What a rejected request returns.
  abbrev pub refused : Option (E → Option E) → Outcome E
  refused none = returned (some unavailable)
  refused (some f) = returned (f unavailable)

  -- The request was called once, its outcome is the result, and the window has one mark more.
  abbrev pub Served :
      Draws
      → Outcome E
      → (Option E → Bool)
      → GoogleBreaker
      → GoogleBreaker × Bool × Outcome E
      → Type 0
  Served d req acceptable b r =
      (r.1 ≡ true)
      × (r.2 ≡ req)
      × (r.0.stat ≡ add marks d.mark_now d.mark_now' (mark_of acceptable req) b.stat)

  -- The breaker is overloaded, the request was not called, and the window has one drop more.
  abbrev pub Rejected :
      Draws → Option (E → Option E) → GoogleBreaker → GoogleBreaker × Bool × Outcome E → Type 0
  Rejected d fallback b r =
      Overloaded d.since b (history d.now b)
      × (r.1 ≡ false)
      × (r.2 ≡ refused fallback)
      × (r.0 ≡ mark d.mark_now d.mark_now' drop_mark b)

  served :
      (d : Draws) (req : Outcome E) (fallback : Option (E → Option E))
      (acceptable : Option E → Bool) (b : GoogleBreaker)
      → (accept d.now d.since d.pass d.u b).1 ≡ true
      → Served d req acceptable b (do_req unavailable d req fallback acceptable b)
  unfolding do_req mark
  served d panicked fallback acceptable b pass = rw pass (
    refl,
    refl,
    ap (add marks d.mark_now d.mark_now' fail_mark) (accept-stat d.now d.since d.pass d.u b),
  )
  served d (returned e) fallback acceptable b pass = rw pass (
    refl,
    refl,
    ap (add marks d.mark_now d.mark_now' (if acceptable e then success_mark else fail_mark))
        (accept-stat d.now d.since d.pass d.u b),
  )

  rejected :
      (d : Draws) (req : Outcome E) (fallback : Option (E → Option E))
      (acceptable : Option E → Bool) (b : GoogleBreaker)
      → (accept d.now d.since d.pass d.u b).1 ≡ false
      → Rejected d fallback b (do_req unavailable d req fallback acceptable b)
  unfolding do_req
  rejected d req none acceptable b reject =
      let (over, same) = accept_rejects d.now d.since d.pass d.u b reject in
      rw reject (over, refl, refl, ap (mark d.mark_now d.mark_now' drop_mark) same)
  rejected d req (some f) acceptable b reject =
      let (over, same) = accept_rejects d.now d.since d.pass d.u b reject in
      rw reject (over, refl, refl, ap (mark d.mark_now d.mark_now' drop_mark) same)

  -- doReq either calls the request once, gives its outcome, a panic too, and adds to the window one
  -- success if that is acceptable, else one failure; or the breaker is overloaded, the request is not
  -- called, the fallback (or the error) is the result, and one drop is added.
  pub do_req_lem :
      (d : Draws) (req : Outcome E) (fallback : Option (E → Option E))
      (acceptable : Option E → Bool) (b : GoogleBreaker)
      → let r = do_req unavailable d req fallback acceptable b in
        Served d req acceptable b r ⊎ Rejected d fallback b r
  do_req_lem d req fallback acceptable b = elim (Bool-cases (accept d.now d.since d.pass d.u b).1) [
    | inl pass ↦ inl (served d req fallback acceptable b pass)
    | inr reject ↦ inr (rejected d req fallback acceptable b reject)
  ]
