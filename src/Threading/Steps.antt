-- ===== src/Threading/Steps.antt =====
-- core/threading/stablerunner.go: the lock of a holder, the end of a task and Get keep the order.
use native.Mathlib.Nat.{add-mod_right}
use fastgozero.Prelude.{
  ℕ, ◌+◌, ◌-◌, ◌%◌, ◌<◌, ◌≤◌, ◌≡◌, refl, sym, ap, ◌∙◌, ◌⊎◌, inl, inr, none, some, get_elem?,
  Option-cases, dec_lt, ℕ_discrete, arith,
}
use fastgozero.Threading.{set_at, StableRunner}
use fastgozero.Threading.Slots.{
  same_slot, set_at_at, set_at_other, set_at-cases, some_pair, none_pair,
}
use fastgozero.Threading.Order.{held, IsWork, IsOrdered}

module _ {I O : Type 0} (handle : I → O) (r : StableRunner I O) (s : IsOrdered handle r) where
  -- The Push that has its index and a free holder is next in its slot.
  lock-turn :
      (v : I)
      → r.pushing ≡ some v
      → r.working ((r.written_index - 1) % r.buf_size) ≡ none
      → ((r.values ((r.written_index - 1) % r.buf_size) ≡ none)
          × (r.consumed_index ≤ r.written_index - 1)
          × (r.written_index - 1 < r.consumed_index + r.buf_size))
        ⊎ ((i : ℕ) × (x : O) × (r.values ((r.written_index - 1) % r.buf_size) ≡ some (i, x))
            × (r.written_index - 1 ≡ i + r.buf_size))
  lock-turn v p free = elim (dec_lt k (r.consumed_index + r.buf_size)) [
    | yes near ↦ inl (no_value near, le, near)
    | no far ↦
        let back : k - r.buf_size + r.buf_size ≡ k = omega arith in
        let same : (k - r.buf_size) % r.buf_size ≡ k % r.buf_size =
          sym (add-mod_right (k - r.buf_size) r.buf_size) ∙ ap (λ t. t % r.buf_size) back in
        elim (s.complete (k - r.buf_size) (omega arith)
          (omega (arith, ap held p, written, s.has_size))) [
            | inl (x, q) ↦ inr (k - r.buf_size, x, sym (ap r.values same) ∙ q, sym back)
            | inr (w, q) ↦ absurd (none_pair (sym free ∙ sym (ap r.working same) ∙ q))
          ]
  ]
    where
      k : ℕ
      k = r.written_index - 1

      written : 0 < r.written_index
      written = (s.last v p).0

      le : r.consumed_index ≤ k
      le = elim s.ahead [
        | inl h ↦ omega (arith, ap held p)
        | inr done ↦ absurd (none_pair (sym (s.idle done) ∙ p))
      ]

      no_value : k < r.consumed_index + r.buf_size → r.values (k % r.buf_size) ≡ none
      no_value near = elim (Option-cases (r.values (k % r.buf_size))) [
        | inl e ↦ e
        | inr ((i, x), q) ↦
            let u = s.valued (k % r.buf_size) i x q in
            let i_le = u.at_least in
            let i_lt = u.written in
            let same =
              same_slot r.buf_size i k s.has_size u.in_slot (omega (arith, ap held p, s.has_size))
                (omega (arith, i_le)) in
            absurd (omega (arith, ap held p, i_lt))
      ]

  pub lock-IsOrdered :
      (v : I)
      → r.pushing ≡ some v
      → r.working ((r.written_index - 1) % r.buf_size) ≡ none
      → IsOrdered handle (record r {
        pushing = none;
        working =
            set_at r.working ((r.written_index - 1) % r.buf_size) (some (r.written_index - 1, v));
      })
  lock-IsOrdered v p free = record {
    has_size = s.has_size;
    counted = s.counted;
    in_order = s.in_order;
    valued = λ o j x q.
        let u = s.valued o j x q in
        record {
          in_slot = u.in_slot;
          at_least = u.at_least;
          near = u.near;
          written = omega (arith, u.written);
          result = u.result;
        };
    worked = λ o j w q. elim (set_at-cases r.working slot (some (k, v)) o) [
      | inl (e, new) ↦
          let (at_k, is_v) = some_pair (sym new ∙ q) in
          record {
            in_slot = ap (λ t. t % r.buf_size) (sym at_k) ∙ sym e;
            written = omega (arith, written, at_k);
            message = ap (get_elem? r.pushed) (sym at_k) ∙ (s.last v p).1 ∙ ap some is_v;
            turn = elim (lock-turn v p free) [
              | inl (no_value, le, near) ↦
                  inl (ap r.values e ∙ no_value, omega (arith, at_k), omega (arith, at_k))
              | inr (i, x, value, after) ↦ inr (i, x, ap r.values e ∙ value, sym at_k ∙ after)
            ];
          }
      | inr (ne, old) ↦
          let u = s.worked o j w (sym old ∙ q) in
          record {
            in_slot = u.in_slot;
            written = omega (arith, u.written);
            message = u.message;
            turn = u.turn;
          }
    ];
    complete = λ i h lt. elim (ℕ_discrete i k) [
      | yes e ↦ inr (
        v,
        set_at_at r.working slot (some (k, v)) (i % r.buf_size) (ap (λ t. t % r.buf_size) e)
            ∙ ap (λ t. some (t, v)) (sym e),
      )
      | no ne ↦ elim (s.complete i h (omega (arith, ap held p))) [
        | inl value ↦ inl value
        | inr (w, q) ↦ inr (w, kept (i % r.buf_size) i w q)
      ]
    ];
    last = λ w q. absurd (none_pair q);
    ahead = elim s.ahead [ inl h ↦ inl (omega arith) | inr d ↦ inr d ];
    idle = λ q. refl;
  }
    where
      k : ℕ
      k = r.written_index - 1

      slot : ℕ
      slot = k % r.buf_size

      written : 0 < r.written_index
      written = (s.last v p).0

      kept :
          (o i : ℕ) (w : I)
          → r.working o ≡ some (i, w)
          → set_at r.working slot (some (k, v)) o ≡ some (i, w)
      kept o i w q = elim (set_at-cases r.working slot (some (k, v)) o) [
        | inl (e, new) ↦ absurd (none_pair (sym free ∙ ap r.working (sym e) ∙ q))
        | inr (ne, old) ↦ old ∙ q
      ]

  pub handled-IsOrdered :
      (o j : ℕ) (v : I)
      → r.working o ≡ some (j, v)
      → r.values o ≡ none
      → IsOrdered handle (record r {
        working = set_at r.working o none;
        values = set_at r.values o (some (j, handle v));
      })
  handled-IsOrdered o j v p free = record {
    has_size = s.has_size;
    counted = s.counted;
    in_order = s.in_order;
    valued = λ o' i x q. elim (set_at-cases r.values o (some (j, handle v)) o') [
      | inl (e, new) ↦
          let (is_j, is_x) = some_pair (sym new ∙ q) in
          let (le, near) = is_next in
          record {
            in_slot = ap (λ t. t % r.buf_size) (sym is_j) ∙ done.in_slot ∙ sym e;
            at_least = omega arith;
            near = omega arith;
            written = omega (arith, done.written);
            result = (v, ap (get_elem? r.pushed) (sym is_j) ∙ done.message, sym is_x);
          }
      | inr (ne, old) ↦
          let u = s.valued o' i x (sym old ∙ q) in
          record {
            in_slot = u.in_slot;
            at_least = u.at_least;
            near = u.near;
            written = u.written;
            result = u.result;
          }
    ];
    worked = λ o' i w q. elim (set_at-cases r.working o none o') [
      | inl (e, new) ↦ absurd (none_pair (sym new ∙ q))
      | inr (ne, old) ↦
          let u = s.worked o' i w (sym old ∙ q) in
          let same = set_at_other r.values o (some (j, handle v)) o' ne in
          record {
            in_slot = u.in_slot;
            written = u.written;
            message = u.message;
            turn = elim u.turn [
              | inl (no_value, le, near) ↦ inl (same ∙ no_value, le, near)
              | inr (i', x, value, after) ↦ inr (i', x, same ∙ value, after)
            ];
          }
    ];
    complete = λ i h lt. elim (s.complete i h lt) [
      | inl (x, q) ↦ elim (set_at-cases r.values o (some (j, handle v)) (i % r.buf_size)) [
        | inl (e, new) ↦ absurd (none_pair (sym free ∙ ap r.values (sym e) ∙ q))
        | inr (ne, old) ↦ inl (x, old ∙ q)
      ]
      | inr (w, q) ↦ elim (ℕ_discrete (i % r.buf_size) o) [
        | yes e ↦
            let (is_j, is_w) = some_pair (sym p ∙ ap r.working (sym e) ∙ q) in
            inl (
              handle v,
              set_at_at r.values o (some (j, handle v)) (i % r.buf_size) e
                  ∙ ap (λ t. some (t, handle v)) is_j,
            )
        | no ne ↦ inr (w, set_at_other r.working o none (i % r.buf_size) ne ∙ q)
      ]
    ];
    last = s.last;
    ahead = s.ahead;
    idle = s.idle;
  }
    where
      done : IsWork handle r o j v
      done = s.worked o j v p

      is_next : (r.consumed_index ≤ j) × (j < r.consumed_index + r.buf_size)
      is_next = elim done.turn [
        | inl (no_value, le, near) ↦ (le, near)
        | inr (i, x, value, after) ↦ absurd (none_pair (sym free ∙ value))
      ]
