-- ===== src/Threading.antt =====
-- core/threading/stablerunner.go: StableRunner, as steps of goroutines that interleave. One goroutine
-- pushes and then waits, one gets. The runner of tasks only delays a task, so a task may be done at
-- any time after its Push has the lock of its holder.
pub mod Slots
pub mod Order
pub mod Steps
pub mod Got
pub mod Run
mod Tests
use fastgozero.Prelude.{
  ℕ, ◌+◌, ◌-◌, ◌%◌, ◌<◌, ◌≤◌, ◌≡◌, Bool, true, false, List, [], ◌∷◌, ◌++◌, Option, none, some,
  if◌then◌else◌, ◌==◌,
}

abbrev pub set_at {ℓ} : {A : Type ℓ} → (ℕ → A) → ℕ → A → ℕ → A
set_at f k a i = if i == k then a else f i

-- A holder is locked while `working` has a message for it; `values` are the channels of capacity one.
-- Messages carry their index, which no step reads but that of the lock. `pushing` is the message of a
-- Push between its AddUint64 and the lock. `pushed` and `taken` are the messages of all Pushes so
-- far and the results of Get.
pub record StableRunner (I O : Type 0) : Type 0 where
  pub buf_size : ℕ
  pub written_index : ℕ
  pub consumed_index : ℕ
  pub pushing : Option I
  pub working : ℕ → Option (ℕ × I)
  pub values : ℕ → Option (ℕ × O)
  pub is_done : Bool
  pub pushed : List I
  pub taken : List O

abbrev pub new_stable_runner : {I O : Type 0} → ℕ → StableRunner I O
new_stable_runner buf_size = record {
  buf_size = buf_size;
  written_index = 0;
  consumed_index = 0;
  pushing = none;
  working = λ o. none;
  values = λ o. none;
  is_done = false;
  pushed = [];
  taken = [];
}

module _ {I O : Type 0} (handle : I → O) where
  -- A goroutine that is there goes on.
  pub data Moves (r : StableRunner I O) : StableRunner I O → Type 0 where
    -- holder.lock.Lock()
    lock :
        (v : I)
        → r.pushing ≡ some v
        → r.working ((r.written_index - 1) % r.buf_size) ≡ none
        → Moves r (record r {
          pushing = none;
          working =
              set_at r.working ((r.written_index - 1) % r.buf_size) (some (r.written_index - 1, v));
        })
    -- holder.value <- r.handle(v), and Unlock
    handled :
        (o j : ℕ) (v : I)
        → r.working o ≡ some (j, v)
        → r.values o ≡ none
        → Moves r (record r {
          working = set_at r.working o none;
          values = set_at r.values o (some (j, handle v));
        })
    -- Get, with a value
    get :
        (j : ℕ) (x : O)
        → r.values (r.consumed_index % r.buf_size) ≡ some (j, x)
        → Moves r (record r {
          values = set_at r.values (r.consumed_index % r.buf_size) none;
          consumed_index = r.consumed_index + 1;
          taken = r.taken ++ x ∷ [];
        })

  -- A goroutine goes on, or a call begins.
  pub data Acts (r : StableRunner I O) : StableRunner I O → Type 0 where
    moves : {r' : StableRunner I O} → Moves r r' → Acts r r'
    push :
        (v : I)
        → r.pushing ≡ none
        → r.is_done ≡ false
        → Acts r (record r {
          written_index = r.written_index + 1;
          pushing = some v;
          pushed = r.pushed ++ v ∷ [];
        })
    -- Wait
    close : r.pushing ≡ none → Acts r (record r { is_done = true })
    -- Get, with ErrRunnerClosed
    get_closed :
        r.is_done ≡ true
        → r.written_index ≤ r.consumed_index
        → Acts r (record r { consumed_index = r.consumed_index + 1 })

  pub data Reaches (r : StableRunner I O) : StableRunner I O → Type 0 where
    at_start : Reaches r r
    then_acts : {b c : StableRunner I O} → Reaches r b → Acts b c → Reaches r c

  -- Goroutines that are there go on, without a Push or a Wait.
  pub data Proceeds (r : StableRunner I O) : StableRunner I O → Type 0 where
    stays : Proceeds r r
    then_moves : {b c : StableRunner I O} → Proceeds r b → Moves b c → Proceeds r c
