-- ===== src/Threading/Got.antt =====
-- core/threading/stablerunner.go: Get gives the result of the next message.
use mathlib.Core.List.{map-append}
use fastgozero.Prelude.{
  ℕ, suc, ◌+◌, ◌%◌, ◌≡◌, ◌≢◌, sym, ap, ◌∙◌, inl, inr, [], ◌∷◌, ◌++◌, none, some, get_elem?, take,
  map, ℕ_discrete, arith,
}
use fastgozero.Threading.{set_at, StableRunner}
use fastgozero.Threading.Slots.{
  same_slot, set_at_at, set_at_other, set_at-cases, take-get_elem?, none_pair,
}
use fastgozero.Threading.Order.{IsValue, IsOrdered}

module _ {I O : Type 0} (handle : I → O) (r : StableRunner I O) (s : IsOrdered handle r) where
  -- The index of a value at the slot of the next Get is that of the next Get.
  pub next_index :
      (i : ℕ) (x : O)
      → r.values (r.consumed_index % r.buf_size) ≡ some (i, x)
      → i ≡ r.consumed_index
  next_index i x p =
      let u = s.valued (r.consumed_index % r.buf_size) i x p in
      same_slot r.buf_size i r.consumed_index s.has_size u.in_slot u.near
        (omega (arith, u.at_least, s.has_size))

  -- An index of another slot is not that of the next Get.
  other_index :
      (i o : ℕ) → i % r.buf_size ≡ o → o ≢ r.consumed_index % r.buf_size → i ≢ r.consumed_index
  other_index i o e ne same = ne (sym e ∙ ap (λ t. t % r.buf_size) same)

  pub get-IsOrdered :
      (j : ℕ) (x : O)
      → r.values (r.consumed_index % r.buf_size) ≡ some (j, x)
      → IsOrdered handle (record r {
        values = set_at r.values (r.consumed_index % r.buf_size) none;
        consumed_index = r.consumed_index + 1;
        taken = r.taken ++ x ∷ [];
      })
  get-IsOrdered j x p = record {
    has_size = s.has_size;
    counted = s.counted;
    in_order =
        let (v, at_j, is_x) = got.result in
        let at_next = ap (get_elem? r.pushed) (sym is_next) ∙ at_j in
        rw (s.in_order, is_x)
          (sym (map-append handle (take r.consumed_index r.pushed) (v ∷ []))
            ∙ ap (map handle) (sym (take-get_elem? r.pushed r.consumed_index v at_next))
            ∙ ap (λ k. map handle (take k r.pushed)) {x = suc r.consumed_index} (omega arith));
    valued = λ o i y q. elim (set_at-cases r.values slot none o) [
      | inl (e, new) ↦ absurd (none_pair (sym new ∙ q))
      | inr (ne, old) ↦
          let u = s.valued o i y (sym old ∙ q) in
          let not_next = other_index i o u.in_slot ne in
          record {
            in_slot = u.in_slot;
            at_least = omega (arith, u.at_least, not_next);
            near = omega (arith, u.near);
            written = u.written;
            result = u.result;
          }
    ];
    worked = λ o i w q.
        let u = s.worked o i w q in
        record {
          in_slot = u.in_slot;
          written = u.written;
          message = u.message;
          turn = elim (ℕ_discrete o slot) [
            | yes e ↦ elim u.turn [
              | inl (no_value, le, near) ↦ absurd (none_pair (sym no_value ∙ ap r.values e ∙ p))
              | inr (k, y, value, after) ↦
                  let is_k = next_index k y (ap r.values (sym e) ∙ value) in
                  inl (set_at_at r.values slot none o e, omega (arith, s.has_size), omega arith)
            ]
            | no ne ↦
                let same = set_at_other r.values slot none o ne in
                let not_next = other_index i o u.in_slot ne in
                elim u.turn [
                  | inl (no_value, le, near) ↦
                      inl (same ∙ no_value, omega (arith, not_next), omega arith)
                  | inr (k, y, value, after) ↦ inr (k, y, same ∙ value, after)
                ]
          ];
        };
    complete = λ i h lt. elim (s.complete i (omega arith) lt) [
      | inl (y, q) ↦ elim (ℕ_discrete (i % r.buf_size) slot) [
        | yes e ↦ absurd (omega (arith, next_index i y (ap r.values (sym e) ∙ q)))
        | no ne ↦ inl (y, set_at_other r.values slot none (i % r.buf_size) ne ∙ q)
      ]
      | inr (w, q) ↦ inr (w, q)
    ];
    last = s.last;
    ahead = inl (omega (arith, got.written, is_next));
    idle = s.idle;
  }
    where
      slot : ℕ
      slot = r.consumed_index % r.buf_size

      got : IsValue handle r slot j x
      got = s.valued slot j x p

      is_next : j ≡ r.consumed_index
      is_next = next_index j x p
