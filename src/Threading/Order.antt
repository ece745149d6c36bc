-- ===== src/Threading/Order.antt =====
-- core/threading/stablerunner.go: the results that Get gives are in the order of the Pushes.
use fastgozero.Prelude.{
  ℕ, suc, ◌+◌, ◌-◌, ◌%◌, ◌<◌, ◌≤◌, ◌≡◌, refl, sym, ap, ◌∙◌, ◌⊎◌, inl, inr, true, false, [], ◌∷◌,
  ◌++◌, Option, none, some, length, length-append, get_elem?, take, map, arith,
}
use fastgozero.Threading.{StableRunner, new_stable_runner}
use fastgozero.Threading.Slots.{get_elem?_old, get_elem?_last, take-longer, take-all}

module _ {I : Type 0} where
  -- The Push that has an index and no lock yet.
  abbrev pub held : Option I → ℕ
  held none = 0
  held (some v) = 1

module _ {I O : Type 0} (handle : I → O) where
  -- A value in a holder is the result of the message of its index, the next one of its holder to get.
  pub record IsValue (r : StableRunner I O) (o j : ℕ) (x : O) : Type 0 where
    pub in_slot : j % r.buf_size ≡ o
    pub at_least : r.consumed_index ≤ j
    pub near : j < r.consumed_index + r.buf_size
    pub written : j + held r.pushing < r.written_index
    pub result : (v : I) × (get_elem? r.pushed j ≡ some v) × (x ≡ handle v)

  -- A message that is being handled is the next one of its holder, or the one after the value there.
  pub record IsWork (r : StableRunner I O) (o j : ℕ) (v : I) : Type 0 where
    pub in_slot : j % r.buf_size ≡ o
    pub written : j + held r.pushing < r.written_index
    pub message : get_elem? r.pushed j ≡ some v
    pub turn :
        ((r.values o ≡ none) × (r.consumed_index ≤ j) × (j < r.consumed_index + r.buf_size))
        ⊎ ((i : ℕ) × (x : O) × (r.values o ≡ some (i, x)) × (j ≡ i + r.buf_size))

  abbrev pub InFlight : StableRunner I O → ℕ → Type 0
  InFlight r i =
      ((x : O) × (r.values (i % r.buf_size) ≡ some (i, x)))
      ⊎ ((v : I) × (r.working (i % r.buf_size) ≡ some (i, v)))

  pub record IsOrdered (r : StableRunner I O) : Type 0 where
    pub has_size : 0 < r.buf_size
    pub counted : length r.pushed ≡ r.written_index
    pub in_order : r.taken ≡ map handle (take r.consumed_index r.pushed)
    pub valued : (o j : ℕ) (x : O) → r.values o ≡ some (j, x) → IsValue r o j x
    pub worked : (o j : ℕ) (v : I) → r.working o ≡ some (j, v) → IsWork r o j v
    pub complete :
        (i : ℕ) → r.consumed_index ≤ i → i + held r.pushing < r.written_index → InFlight r i
    pub last :
        (v : I)
        → r.pushing ≡ some v
        → (0 < r.written_index) × (get_elem? r.pushed (r.written_index - 1) ≡ some v)
    pub ahead : (r.consumed_index + held r.pushing ≤ r.written_index) ⊎ (r.is_done ≡ true)
    pub idle : r.is_done ≡ true → r.pushing ≡ none

  pub work-at_least :
      (r : StableRunner I O)
      → IsOrdered r
      → (o j : ℕ) (v : I) → r.working o ≡ some (j, v)
      → r.consumed_index ≤ j
  work-at_least r s o j v p = elim (s.worked o j v p).turn [
    | inl (no_value, le, near) ↦ le
    | inr (i, x, q, e) ↦ omega (arith, (s.valued o i x q).at_least)
  ]

  pub new-IsOrdered : (n : ℕ) → 0 < n → IsOrdered (new_stable_runner n)
  new-IsOrdered n pos = record {
    has_size = pos;
    counted = refl;
    in_order = refl;
    valued = λ o j x p. grind arith;
    worked = λ o j v p. grind arith;
    complete = λ i h k. absurd (omega arith);
    last = λ v p. grind arith;
    ahead = inl (omega arith);
    idle = λ p. refl;
  }

  pub push-IsOrdered :
      (r : StableRunner I O) (v : I)
      → r.pushing ≡ none
      → r.is_done ≡ false
      → IsOrdered r
      → IsOrdered (record r {
        written_index = r.written_index + 1;
        pushing = some v;
        pushed = r.pushed ++ v ∷ [];
      })
  push-IsOrdered r v p d s = record {
    has_size = s.has_size;
    counted = omega (arith, length-append r.pushed (v ∷ []), s.counted);
    in_order =
        s.in_order ∙ ap (map handle) (sym (take-longer r.pushed (v ∷ []) r.consumed_index c_le));
    valued = λ o j x q.
        let u = s.valued o j x q in
        record {
          in_slot = u.in_slot;
          at_least = u.at_least;
          near = u.near;
          written = omega (arith, u.written, ap held p);
          result = let (w, at_j, e) = u.result in (w, get_elem?_old r.pushed v j w at_j, e);
        };
    worked = λ o j w q.
        let u = s.worked o j w q in
        record {
          in_slot = u.in_slot;
          written = omega (arith, u.written, ap held p);
          message = get_elem?_old r.pushed v j w u.message;
          turn = u.turn;
        };
    complete = λ i h k. s.complete i h (omega (arith, ap held p));
    last = λ w q. (
      omega arith,
      ap (get_elem? (r.pushed ++ v ∷ [])) (omega (arith, s.counted))
          ∙ get_elem?_last r.pushed v
          ∙ q,
    );
    ahead = inl (omega (arith, c_le, s.counted));
    idle = λ q. cc;
  }
    where
      c_le : r.consumed_index ≤ length r.pushed
      c_le = elim s.ahead [ inl le ↦ omega (arith, s.counted) | inr done ↦ cc ]

  pub close-IsOrdered :
      (r : StableRunner I O)
      → r.pushing ≡ none
      → IsOrdered r
      → IsOrdered (record r { is_done = true })
  close-IsOrdered r p s = record {
    has_size = s.has_size;
    counted = s.counted;
    in_order = s.in_order;
    valued = λ o j x q.
        let u = s.valued o j x q in
        record {
          in_slot = u.in_slot;
          at_least = u.at_least;
          near = u.near;
          written = u.written;
          result = u.result;
        };
    worked = λ o j w q.
        let u = s.worked o j w q in
        record { in_slot = u.in_slot; written = u.written; message = u.message; turn = u.turn };
    complete = s.complete;
    last = s.last;
    ahead = inr refl;
    idle = λ q. p;
  }

  pub get_closed-IsOrdered :
      (r : StableRunner I O)
      → r.is_done ≡ true
      → r.written_index ≤ r.consumed_index
      → IsOrdered r
      → IsOrdered (record r { consumed_index = r.consumed_index + 1 })
  get_closed-IsOrdered r d le s = record {
    has_size = s.has_size;
    counted = s.counted;
    in_order =
        s.in_order
        ∙ ap (map handle) (
            sym (take-all r.pushed r.consumed_index (omega (arith, s.counted)))
            ∙ ap (λ k. take k r.pushed) {x = suc r.consumed_index} (omega arith));
    valued = λ o j x q. let u = s.valued o j x q in absurd (omega (arith, u.written, u.at_least));
    worked = λ o j w q.
        let u = s.worked o j w q in absurd (omega (arith, u.written, work-at_least r s o j w q));
    complete = λ i h k. absurd (omega arith);
    last = s.last;
    ahead = inr d;
    idle = s.idle;
  }
