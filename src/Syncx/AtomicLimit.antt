-- ===== src/Syncx/AtomicLimit.antt =====
-- core/syncx/atomiclimit.go: AtomicLimit. Goroutines interleave between its atomic operations: a step
-- is one of them, and a goroutine is idle, borrowing, or about to give back what it took too much.
use fastgozero.Prelude.{
  ℕ, ◌+◌, ◌-◌, ◌%◌, ◌≤◌, ◌<◌, ◌≡◌, refl, ◌∙◌, inl, inr, arith, ltb, if◌then◌else◌, Bool-cases,
}

-- 2 ^ 32
abbrev pub word : ℕ
word = 4294967296

-- atomic.AddUint32
unfoldable pub add_uint32 : ℕ → ℕ → ℕ
add_uint32 m d = (m + d) % word

-- The limit `n` and the counter `m`, with the numbers of goroutines that hold a token and of those
-- between the two operations of a TryBorrow that failed.
pub record AtomicLimit : Type 0 where
  pub n : ℕ
  pub m : ℕ
  pub holders : ℕ
  pub excess : ℕ

-- NewAtomicLimit
unfoldable pub new_atomic_limit : ℕ → AtomicLimit
new_atomic_limit n = record { n = n % word; m = 0; holders = 0; excess = 0 }

-- TryBorrow up to its test.
unfoldable pub try_borrow : AtomicLimit → AtomicLimit
unfolding add_uint32
try_borrow l =
    let v = add_uint32 l.m 1 in
    if ltb l.n v
    then record l { m = v; excess = l.excess + 1 }
    else record l { m = v; holders = l.holders + 1 }

-- TryBorrow after a test that failed.
unfoldable pub back_off : AtomicLimit → AtomicLimit
unfolding add_uint32
back_off l = record l { m = add_uint32 l.m (word - 1); excess = l.excess - 1 }

-- Return, by a goroutine that holds a token.
unfoldable pub return_token : AtomicLimit → AtomicLimit
unfolding add_uint32
return_token l = record l { m = add_uint32 l.m (word - 1); holders = l.holders - 1 }

-- One atomic operation, with at most `threads` goroutines in TryBorrow or with a token.
pub data Step (threads : ℕ) : AtomicLimit → AtomicLimit → Type 0 where
  borrow_step : {l : AtomicLimit} → l.holders + l.excess < threads → Step threads l (try_borrow l)
  back_off_step : {l : AtomicLimit} → 0 < l.excess → Step threads l (back_off l)
  return_step : {l : AtomicLimit} → 0 < l.holders → Step threads l (return_token l)

pub data Steps (threads : ℕ) : AtomicLimit → AtomicLimit → Type 0 where
  no_step : {l : AtomicLimit} → Steps threads l l
  then_step :
      {l l' l'' : AtomicLimit} → Steps threads l l' → Step threads l' l'' → Steps threads l l''

-- The counter is the number of goroutines that it counts, and no more than `n` hold a token.
pub record IsValid (threads n : ℕ) (l : AtomicLimit) : Type 0 where
  pub same_limit : l.n ≡ n
  pub counted : l.m ≡ l.holders + l.excess
  pub few : l.holders + l.excess ≤ threads
  pub held : l.holders ≤ n

module _ (threads n : ℕ) (below : threads < word) where
  minus_one : (m : ℕ) → 0 < m → m < word → add_uint32 m (word - 1) ≡ m - 1
  unfolding add_uint32
  minus_one m pos lt = omega (arith, pos, lt)

  plus_one : (m : ℕ) → m < threads → add_uint32 m 1 ≡ m + 1
  unfolding add_uint32
  plus_one m lt = omega (arith, lt, below)

  Step-IsValid :
      {l l' : AtomicLimit} → Step threads l l' → IsValid threads n l → IsValid threads n l'
  Step-IsValid {l} (borrow_step room) v = elim (Bool-cases (ltb l.n (add_uint32 l.m 1))) [
    | inl full ↦
        unfold try_borrow in
        rw full (record {
          same_limit = v.same_limit;
          counted = plus_one l.m counted_room ∙ omega (arith, v.counted);
          few = omega (arith, room);
          held = v.held;
        })
    | inr free ↦
        unfold try_borrow in
        rw free (record {
          same_limit = v.same_limit;
          counted = plus_one l.m counted_room ∙ omega (arith, v.counted);
          few = omega (arith, room);
          held = ground (arith, free, plus_one l.m counted_room, v.counted, v.same_limit);
        })
  ]
    where
      counted_room : l.m < threads
      counted_room = omega (arith, v.counted, room)
  Step-IsValid {l} (back_off_step some_excess) v =
      unfold back_off in
      record {
        same_limit = v.same_limit;
        counted =
            minus_one l.m (omega (arith, v.counted, some_excess))
              (omega (arith, v.counted, v.few, below))
            ∙ omega (arith, v.counted, some_excess);
        few = omega (arith, v.few);
        held = v.held;
      }
  Step-IsValid {l} (return_step some_holder) v =
      unfold return_token in
      record {
        same_limit = v.same_limit;
        counted =
            minus_one l.m (omega (arith, v.counted, some_holder))
              (omega (arith, v.counted, v.few, below))
            ∙ omega (arith, v.counted, some_holder);
        few = omega (arith, v.few);
        held = omega (arith, v.held);
      }

  Steps-IsValid :
      {l l' : AtomicLimit} → Steps threads l l' → IsValid threads n l → IsValid threads n l'
  Steps-IsValid no_step v = v
  Steps-IsValid (then_step before step) v = Step-IsValid step (Steps-IsValid before v)

  reached-IsValid :
      {l : AtomicLimit} → n < word → Steps threads (new_atomic_limit n) l → IsValid threads n l
  reached-IsValid fits path = Steps-IsValid path (
      unfold new_atomic_limit in
      record {
        same_limit = omega (arith, fits);
        counted = refl;
        few = omega arith;
        held = omega arith;
      })

  -- However the goroutines interleave, if they are fewer than 2 ^ 32 and so is the limit: no more of
  -- them than the limit hold a token at a time, and the counter has not wrapped.
  pub Steps-bound :
      {l : AtomicLimit}
      → n < word
      → Steps threads (new_atomic_limit n) l
      → (l.holders ≤ n) × (l.m ≡ l.holders + l.excess)
  Steps-bound fits path = let v = reached-IsValid fits path in (v.held, v.counted)

  -- Where no goroutine is between the two operations of a TryBorrow, the next TryBorrow succeeds
  -- exactly if fewer than the limit hold a token.
  pub try_borrow-Steps :
      {l : AtomicLimit}
      → n < word
      → Steps threads (new_atomic_limit n) l
      → l.excess ≡ 0
      → l.holders < threads
      → (try_borrow l).holders ≡ (if ltb l.holders n then l.holders + 1 else l.holders)
  unfolding try_borrow
  try_borrow-Steps {l} fits path calm room =
      let v = reached-IsValid fits path in
      ground
        (arith, v.counted, calm, v.same_limit, plus_one l.m (omega (arith, v.counted, calm, room)))
