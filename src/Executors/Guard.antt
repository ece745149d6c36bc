-- ===== src/Executors/Guard.antt =====
-- core/executors: there is one background goroutine exactly while the executor is guarded, so an Add
-- that waits is served.
use fastgozero.Prelude.{
  ℕ, zero, suc, ◌+◌, ◌-◌, ◌*◌, ◌<◌, ◌≤◌, ◌≡◌, refl, ap, ◌∙◌, ◌⊎◌, inl, inr, Bool, true, false, List,
  [], ◌∷◌, ◌++◌, Option, none, some, length, Bool-cases, arith,
}
use fastgozero.Executors.{
  Executor, new_executor, add_task, ensure_guard, add_and_check, Goes, send, start, receive,
  confirm, execute, tick, quit, last_flush, finish, Step, goes, add_call, flush_call, Steps, here,
  next,
}

abbrev pub guards : Bool → ℕ
guards true = 1
guards false = 0

guards-le : (b : Bool) → guards b ≤ 1
guards-le true = omega arith
guards-le false = omega arith

module _ {T : Type 0} where
  abbrev pub sent : Option (List T) → ℕ
  sent none = 0
  sent (some vals) = 1

  -- The background goroutines in their loop.
  abbrev pub loops : Executor T → ℕ
  loops e = e.starting + e.selecting + length e.confirming + length e.executing

  pub record IsGuarded (e : Executor T) : Type 0 where
    pub one : loops e ≡ guards e.guarded
    pub counted : e.inflight ≡ length e.sending + sent e.commander
    pub confirms : e.waiting ≡ length e.confirming + sent e.commander
    pub served : (e.guarded ≡ true) ⊎ (e.inflight ≡ 0)
    pub left_behind : (e.guarded ≡ true) ⊎ ((0 < e.quitting) ⊎ (e.container ≡ []))

  length-split :
      (before after : List (List T)) (vals : List T)
      → length (before ++ vals ∷ after) ≡ length (before ++ after) + 1
  length-split [] after vals = omega arith
  length-split (b ∷ before) after vals = omega (arith, length-split before after vals)

  Goes-IsGuarded : {e e' : Executor T} → Goes e e' → IsGuarded e → IsGuarded e'
  Goes-IsGuarded {e} (send before after vals p q) v = record {
    one = v.one;
    counted = omega (arith, v.counted, ap length p, ap sent q, length-split before after vals);
    confirms = omega (arith, v.confirms, ap sent q);
    served = v.served;
    left_behind = v.left_behind;
  }
  Goes-IsGuarded {e} (start n p) v = record {
    one = omega (arith, v.one);
    counted = v.counted;
    confirms = v.confirms;
    served = v.served;
    left_behind = v.left_behind;
  }
  Goes-IsGuarded {e} (receive n vals p q) v = record {
    one = omega (arith, v.one);
    counted = omega (arith, v.counted, ap sent q);
    confirms = omega (arith, v.confirms, ap sent q);
    served = elim v.served [ inl g ↦ inl g | inr z ↦ inr (omega arith) ];
    left_behind = v.left_behind;
  }
  Goes-IsGuarded {e} (confirm n before after vals p q) v = record {
    one = omega (arith, v.one, ap length p, length-split before after vals);
    counted = v.counted;
    confirms = omega (arith, v.confirms, ap length p, length-split before after vals);
    served = v.served;
    left_behind = v.left_behind;
  }
  Goes-IsGuarded {e} (execute before after vals p) v = record {
    one = omega (arith, v.one, ap length p, length-split before after vals);
    counted = v.counted;
    confirms = v.confirms;
    served = v.served;
    left_behind = v.left_behind;
  }
  Goes-IsGuarded {e} (tick n p) v = record {
    one = omega (arith, v.one);
    counted = v.counted;
    confirms = v.confirms;
    served = v.served;
    left_behind = inr (inr refl);
  }
  Goes-IsGuarded {e} (quit n p q) v = record {
    one = omega (arith, v.one, guards-le e.guarded);
    counted = v.counted;
    confirms = v.confirms;
    served = inr q;
    left_behind = inr (inl (omega arith));
  }
  Goes-IsGuarded {e} (last_flush n p) v = record {
    one = v.one;
    counted = v.counted;
    confirms = v.confirms;
    served = v.served;
    left_behind = inr (inr refl);
  }
  Goes-IsGuarded {e} (finish before after vals p) v = v'
    where
      v' : IsGuarded (record e { flushing = before ++ after; executed = e.executed ++ vals })
      v' = record {
        one = v.one;
        counted = v.counted;
        confirms = v.confirms;
        served = v.served;
        left_behind = v.left_behind;
      }

  -- What holds before the guard is ensured.
  abbrev Counted : Executor T → Type 0
  Counted e =
      (loops e ≡ guards e.guarded)
      × (e.inflight ≡ length e.sending + sent e.commander)
      × (e.waiting ≡ length e.confirming + sent e.commander)

  ensure_guard-IsGuarded : (e : Executor T) → Counted e → IsGuarded (ensure_guard e)
  unfolding ensure_guard
  ensure_guard-IsGuarded e (one, counted, confirms) = elim (Bool-cases e.guarded) [
    | inl there ↦
        rw (there, ensure_guard)
          (record {
            one = one ∙ ap guards there;
            counted = counted;
            confirms = confirms;
            served = inl refl;
            left_behind = inl refl;
          })
    | inr missing ↦
        let none_there : loops e ≡ 0 = one ∙ ap guards missing in
        rw (missing, ensure_guard)
          (record {
            one = omega arith;
            counted = counted;
            confirms = confirms;
            served = inl refl;
            left_behind = inl refl;
          })
  ]

  add_task-Counted :
      (full : List T → Bool) (task : T) (e : Executor T)
      → Counted e
      → Counted (add_task full task e)
  unfolding add_task
  add_task-Counted full task e (one, counted, confirms) =
      elim (Bool-cases (full (e.container ++ task ∷ []))) [
        | inl now ↦ rw now (one, omega arith, confirms)
        | inr later ↦ rw later (one, counted, confirms)
      ]

  Step-IsGuarded :
      {full : List T → Bool} {e e' : Executor T} → Step full e e' → IsGuarded e → IsGuarded e'
  Step-IsGuarded (goes g) v = Goes-IsGuarded g v
  Step-IsGuarded {full} {e} (add_call task) v =
      unfold add_and_check in
      ensure_guard-IsGuarded _ (
        add_task-Counted full task (record e { added = e.added ++ task ∷ [] })
          (v.one, v.counted, v.confirms))
  Step-IsGuarded {full} {e} flush_call v = record {
    one = v.one;
    counted = v.counted;
    confirms = v.confirms;
    served = v.served;
    left_behind = inr (inr refl);
  }

-- Whatever the goroutines do, from a new executor on: one background goroutine is in its loop while
-- the executor is guarded, and none else; inflight counts the batches that are not received yet, and
-- is zero while the executor is not guarded; and tasks are in the container only while it is guarded
-- or a goroutine that has quit still owes its last Flush.
pub Steps-IsGuarded :
    {T : Type 0} (full : List T → Bool) (e : Executor T) → Steps full new_executor e → IsGuarded e
Steps-IsGuarded full e here = record {
  one = refl;
  counted = refl;
  confirms = refl;
  served = inr refl;
  left_behind = inr (inr refl);
}
Steps-IsGuarded full e (next r s) = Step-IsGuarded s (Steps-IsGuarded full _ r)

-- The steps that the batches on their way and the goroutines that start still need.
abbrev pub work : {T : Type 0} → Executor T → ℕ
work e =
    e.starting
    + 4 * length e.sending
    + 3 * sent e.commander
    + 2 * length e.confirming
    + length e.executing
    + length e.flushing

-- Some goroutine can go on with that work, which leaves less of it.
abbrev pub CanGo : {T : Type 0} → Executor T → Type 0
CanGo {T} e =
    (e' : Executor T) × Goes e e'
    × (work e ≡ work e' + 1)
    × (e'.added ≡ e.added)
    × (e'.container ≡ e.container)

module _ {T : Type 0} (e : Executor T) (v : IsGuarded e) where
  -- With a goroutine at its select, a batch that is sent is received, and else one is sent.
  select_goes : (n : ℕ) → e.selecting ≡ suc n → 0 < e.inflight → CanGo e
  select_goes n p h = by_sent e.commander refl e.sending refl
    where
      by_sent :
          (c : Option (List T)) → e.commander ≡ c → (s : List (List T)) → e.sending ≡ s → CanGo e
      by_sent (some vals) q s r = (_, receive n vals p q, omega (arith, ap sent q), refl, refl)
      by_sent none q (vals ∷ s) r =
          (_, send [] s vals r q, omega (arith, ap sent q, ap length r), refl, refl)
      by_sent none q [] r = absurd (omega (arith, v.counted, ap length r, ap sent q))

  waiting_goes : (vals : List T) (rest : List (List T)) → e.confirming ≡ vals ∷ rest → CanGo e
  waiting_goes vals rest p =
      let w : e.waiting ≡ suc (e.waiting - 1) = omega (arith, v.confirms, ap length p) in
      (_, confirm (e.waiting - 1) [] rest vals p w, omega (arith, ap length p), refl, refl)

  loop_goes : 0 < loops e → 0 < e.inflight → CanGo e
  loop_goes l h = by_state e.confirming refl e.executing refl e.starting refl e.selecting refl
    where
      by_state :
          (c : List (List T))
          → e.confirming ≡ c
          → (x : List (List T)) → e.executing ≡ x
          → (n : ℕ) → e.starting ≡ n
          → (m : ℕ) → e.selecting ≡ m
          → CanGo e
      by_state (vals ∷ c) p x q n r m t = waiting_goes vals c p
      by_state [] p (vals ∷ x) q n r m t =
          (_, execute [] x vals q, omega (arith, ap length q), refl, refl)
      by_state [] p [] q (suc n) r m t = (_, start n r, omega (arith, r), refl, refl)
      by_state [] p [] q zero r (suc m) t = select_goes m t h
      by_state [] p [] q zero r zero t = absurd (omega (arith, ap length p, ap length q))

  -- A batch that is not received yet has its background goroutine.
  inflight_goes : 0 < e.inflight → CanGo e
  inflight_goes h = elim v.served [
    | inl there ↦ loop_goes (omega (arith, v.one, ap guards there)) h
    | inr none_there ↦ absurd (omega arith)
  ]

  pub work_goes : 0 < work e → CanGo e
  work_goes l =
      by_state e.confirming refl e.executing refl e.flushing refl e.starting refl e.inflight refl
    where
      by_state :
          (c : List (List T))
          → e.confirming ≡ c
          → (x : List (List T)) → e.executing ≡ x
          → (y : List (List T)) → e.flushing ≡ y
          → (n : ℕ) → e.starting ≡ n
          → (m : ℕ) → e.inflight ≡ m
          → CanGo e
      by_state (vals ∷ c) p x q y t n r m u = waiting_goes vals c p
      by_state [] p (vals ∷ x) q y t n r m u =
          (_, execute [] x vals q, omega (arith, ap length q), refl, refl)
      by_state [] p [] q (vals ∷ y) t n r m u =
          (_, finish [] y vals t, omega (arith, ap length t), refl, refl)
      by_state [] p [] q [] t (suc n) r m u = (_, start n r, omega (arith, r), refl, refl)
      by_state [] p [] q [] t zero r (suc m) u = inflight_goes (omega arith)
      by_state [] p [] q [] t zero r zero u =
          absurd (omega (arith, v.counted, ap length p, ap length q, ap length t))
