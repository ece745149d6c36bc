-- ===== src/Threading/Run.antt =====
-- core/threading/stablerunner.go: whatever the goroutines do, Get gives the results in order, and all.
use fastgozero.Prelude.{
  ℕ, zero, suc, ◌+◌, ◌-◌, ◌%◌, ◌<◌, ◌≤◌, ◌≡◌, refl, sym, ap, ◌∙◌, ◌⊎◌, inl, inr, true, some, length,
  take, map, Option-cases, dec_lt, arith,
}
use fastgozero.Threading.{
  StableRunner, new_stable_runner, Moves, lock, handled, get, Acts, moves, push, close, get_closed,
  Reaches, at_start, then_acts, Proceeds, stays, then_moves,
}
use fastgozero.Threading.Slots.{set_at_at, take-everything}
use fastgozero.Threading.Order.{
  held, IsOrdered, new-IsOrdered, push-IsOrdered, close-IsOrdered, get_closed-IsOrdered,
  work-at_least,
}
use fastgozero.Threading.Steps.{lock-IsOrdered, handled-IsOrdered}
use fastgozero.Threading.Got.{get-IsOrdered}

module _ {I O : Type 0} (handle : I → O) where
  Moves-IsOrdered :
      {r r' : StableRunner I O} → Moves handle r r' → IsOrdered handle r → IsOrdered handle r'
  Moves-IsOrdered {r} (lock v p free) s = lock-IsOrdered handle r s v p free
  Moves-IsOrdered {r} (handled o j v p free) s = handled-IsOrdered handle r s o j v p free
  Moves-IsOrdered {r} (get j x p) s = get-IsOrdered handle r s j x p

  Acts-IsOrdered :
      {r r' : StableRunner I O} → Acts handle r r' → IsOrdered handle r → IsOrdered handle r'
  Acts-IsOrdered (moves m) s = Moves-IsOrdered m s
  Acts-IsOrdered {r} (push v p d) s = push-IsOrdered handle r v p d s
  Acts-IsOrdered {r} (close p) s = close-IsOrdered handle r p s
  Acts-IsOrdered {r} (get_closed d le) s = get_closed-IsOrdered handle r d le s

  Reaches-IsOrdered :
      (n : ℕ)
      → 0 < n
      → {r : StableRunner I O} → Reaches handle (new_stable_runner n) r
      → IsOrdered handle r
  Reaches-IsOrdered n pos at_start = new-IsOrdered handle n pos
  Reaches-IsOrdered n pos (then_acts q a) = Acts-IsOrdered a (Reaches-IsOrdered n pos q)

  -- Goroutines that are there go on to the end of the next Get.
  abbrev pub NextGet : StableRunner I O → Type 0
  NextGet r =
      (r' : StableRunner I O) × Proceeds handle r r'
      × IsOrdered handle r'
      × (r'.consumed_index ≡ r.consumed_index + 1)
      × (r'.pushed ≡ r.pushed)
      × (r'.written_index ≡ r.written_index)

  get_value :
      (r : StableRunner I O)
      → IsOrdered handle r
      → (j : ℕ) (x : O) → r.values (r.consumed_index % r.buf_size) ≡ some (j, x)
      → NextGet r
  get_value r s j x p =
      (_, then_moves stays (get j x p), get-IsOrdered handle r s j x p, refl, refl, refl)

  move_first :
      {a b c : StableRunner I O} → Moves handle a b → Proceeds handle b c → Proceeds handle a c
  move_first m stays = then_moves stays m
  move_first m (then_moves q m') = then_moves (move_first m q) m'

  get_working :
      (r : StableRunner I O)
      → IsOrdered handle r
      → (j : ℕ) (v : I) → r.working (r.consumed_index % r.buf_size) ≡ some (j, v)
      → NextGet r
  get_working r s j v p = elim (Option-cases (r.values slot)) [
    | inl free ↦
        let m = handled slot j v p free in
        let (r', q, ordered, next, pushed, written) =
          get_value _ (Moves-IsOrdered m s) j (handle v)
            (set_at_at r.values slot (some (j, handle v)) slot refl) in
        (r', move_first m q, ordered, next, pushed, written)
    | inr ((i, x), q) ↦ get_value r s i x q
  ]
    where
      slot : ℕ
      slot = r.consumed_index % r.buf_size

  get_pushing :
      (r : StableRunner I O)
      → IsOrdered handle r
      → (v : I) → r.pushing ≡ some v
      → r.written_index - 1 ≡ r.consumed_index
      → NextGet r
  get_pushing r s v p e = elim (Option-cases (r.working slot)) [
    | inl free ↦
        let m = lock v p free in
        let (r', q, ordered, next, pushed, written) =
          get_working _ (Moves-IsOrdered m s) (r.written_index - 1) v (
            set_at_at r.working slot (some (r.written_index - 1, v)) (r.consumed_index % r.buf_size)
              (ap (λ t. t % r.buf_size) (sym e))) in
        (r', move_first m q, ordered, next, pushed, written)
    | inr ((j, w), q) ↦ absurd (
        omega
          (arith, (s.worked slot j w q).written, work-at_least handle r s slot j w q, ap held p))
  ]
    where
      slot : ℕ
      slot = (r.written_index - 1) % r.buf_size

  next_get :
      (r : StableRunner I O) → IsOrdered handle r → r.consumed_index < r.written_index → NextGet r
  next_get r s lt = elim (dec_lt (r.consumed_index + held r.pushing) r.written_index) [
    | yes in_flight ↦ elim (s.complete r.consumed_index (omega arith) in_flight) [
      | inl (x, q) ↦ get_value r s r.consumed_index x q
      | inr (v, q) ↦ get_working r s r.consumed_index v q
    ]
    | no out ↦ elim (Option-cases r.pushing) [
      | inl none_pushes ↦ absurd (omega (arith, ap held none_pushes))
      | inr (v, p) ↦ get_pushing r s v p (omega (arith, ap held p))
    ]
  ]

  Proceeds-append :
      {a b c : StableRunner I O} → Proceeds handle a b → Proceeds handle b c → Proceeds handle a c
  Proceeds-append q stays = q
  Proceeds-append q (then_moves q' m) = then_moves (Proceeds-append q q') m

  abbrev pub TakesAll : StableRunner I O → Type 0
  TakesAll r =
      (r' : StableRunner I O) × Proceeds handle r r'
      × (r'.pushed ≡ r.pushed)
      × (r'.taken ≡ map handle r.pushed)

  take_rest :
      (n : ℕ) (r : StableRunner I O)
      → IsOrdered handle r
      → r.written_index - r.consumed_index ≡ n
      → TakesAll r
  take_rest zero r s e = (
    r,
    stays,
    refl,
    s.in_order
        ∙ ap (map handle) (take-everything r.pushed r.consumed_index (omega (arith, s.counted))),
  )
  take_rest (suc n) r s e =
      let (r1, q, s1, next, pushed, written) = next_get r s (omega arith) in
      let (r', q', pushed', taken) = take_rest n r1 s1 (omega arith) in
      (r', Proceeds-append q q', pushed' ∙ pushed, taken ∙ ap (map handle) pushed)

-- Whatever the goroutines of a StableRunner with a ring of n > 0 holders do, from a new one on: the
-- results that Get gave are those of handle for the first messages, in the order of the Pushes, as
-- many as Get was called; and unless the runner is closed, no more than were pushed.
pub Reaches-taken :
    {I O : Type 0} (handle : I → O) (n : ℕ)
    → 0 < n
    → (r : StableRunner I O) → Reaches handle (new_stable_runner n) r
    → (r.taken ≡ map handle (take r.consumed_index r.pushed))
      × ((r.consumed_index ≤ length r.pushed) ⊎ (r.is_done ≡ true))
Reaches-taken handle n pos r q =
    let s = Reaches-IsOrdered handle n pos q in
    (s.in_order, elim s.ahead [ inl le ↦ inl (omega (arith, s.counted)) | inr d ↦ inr d ])

-- In whatever state the goroutines of a StableRunner with a ring of n > 0 holders left it: those that
-- are there can go on, without another Push, until Get gave the results of all messages pushed.
pub Reaches-TakesAll :
    {I O : Type 0} (handle : I → O) (n : ℕ)
    → 0 < n
    → (r : StableRunner I O) → Reaches handle (new_stable_runner n) r
    → TakesAll handle r
Reaches-TakesAll handle n pos r q = take_rest handle _ r (Reaches-IsOrdered handle n pos q) refl
