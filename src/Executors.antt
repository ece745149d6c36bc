-- ===== src/Executors.antt =====
-- core/executors: PeriodicalExecutor with the containers of BulkExecutor and ChunkExecutor, as steps of
-- goroutines that interleave. `full` is the container's test of AddTask. A tick may come at any time,
-- and a Flush may be called at any time; a panic of a task is recovered by RunSafe, so a batch that
-- is handed to Execute is done.
pub mod Account
pub mod Guard
pub mod Served
pub mod Delay
pub mod Less
mod Tests
use fastgozero.Prelude.{
  ℕ, suc, ◌+◌, ◌-◌, ◌≡◌, Bool, true, false, List, [], ◌∷◌, ◌++◌, Option, none, some, leb,
  if◌then◌else◌, length,
}

-- The sum of a measure over tasks.
unfoldable pub total : {T : Type 0} → (T → ℕ) → List T → ℕ
total f [] = 0
total f (x ∷ xs) = f x + total f xs

-- bulkContainer and chunkContainer: when AddTask asks for a flush. A chunk is a task with its size.
unfoldable pub bulk_full : {T : Type 0} → ℕ → List T → Bool
bulk_full max_tasks tasks = leb max_tasks (length tasks)

unfoldable pub chunk_full : {T : Type 0} → ℕ → List (T × ℕ) → Bool
chunk_full max_chunk_size chunks = leb max_chunk_size (total (λ c. c.1) chunks)

-- `sending` holds the batches of Adds that wait to send, `waiting` the number of Adds that have sent
-- and wait to be confirmed. Of the background goroutines, `starting` and `selecting` are counted;
-- those with a batch are in `confirming` and `executing`; `quitting` have left the loop and owe
-- their last Flush. `flushing` holds the batches of Flush. `added` and `executed` are the tasks of
-- all calls of Add so far and those handed to Execute.
pub record Executor (T : Type 0) : Type 0 where
  pub container : List T
  pub commander : Option (List T)
  pub inflight : ℕ
  pub guarded : Bool
  pub sending : List (List T)
  pub waiting : ℕ
  pub starting : ℕ
  pub selecting : ℕ
  pub confirming : List (List T)
  pub executing : List (List T)
  pub quitting : ℕ
  pub flushing : List (List T)
  pub added : List T
  pub executed : List T

abbrev pub new_executor : {T : Type 0} → Executor T
new_executor = record {
  container = [];
  commander = none;
  inflight = 0;
  guarded = false;
  sending = [];
  waiting = 0;
  starting = 0;
  selecting = 0;
  confirming = [];
  executing = [];
  quitting = 0;
  flushing = [];
  added = [];
  executed = [];
}

module _ {T : Type 0} where
  -- AddTask and, if it asks for it, RemoveAll, under the lock.
  unfoldable pub add_task : (List T → Bool) → T → Executor T → Executor T
  add_task full task e =
      let tasks = e.container ++ task ∷ [] in
      if full tasks
      then record e { container = []; sending = tasks ∷ e.sending; inflight = e.inflight + 1 }
      else record e { container = tasks }

  -- The end of addAndCheck: the guard, and the start of a background goroutine.
  unfoldable pub ensure_guard : Executor T → Executor T
  ensure_guard e = if e.guarded then e else record e { guarded = true; starting = e.starting + 1 }

  unfoldable pub add_and_check : (List T → Bool) → T → Executor T → Executor T
  add_and_check full task e =
      ensure_guard (add_task full task (record e { added = e.added ++ task ∷ [] }))

  -- One goroutine goes on, other than by a new Add.
  pub data Goes (e : Executor T) : Executor T → Type 0 where
    -- pe.commander <- vals, into the buffer of one
    send :
        (before after : List (List T)) (vals : List T)
        → e.sending ≡ before ++ vals ∷ after
        → e.commander ≡ none
        → Goes e
            (record e { sending = before ++ after; commander = some vals; waiting = e.waiting + 1 })
    start :
        (n : ℕ)
        → e.starting ≡ suc n
        → Goes e (record e { starting = n; selecting = e.selecting + 1 })
    -- case vals := <-pe.commander
    receive :
        (n : ℕ) (vals : List T)
        → e.selecting ≡ suc n
        → e.commander ≡ some vals
        → Goes e (record e {
          selecting = n;
          commander = none;
          inflight = e.inflight - 1;
          confirming = vals ∷ e.confirming;
        })
    -- pe.confirmChan <- lang.Placeholder, with the Add that waits
    confirm :
        (n : ℕ) (before after : List (List T)) (vals : List T)
        → e.confirming ≡ before ++ vals ∷ after
        → e.waiting ≡ suc n
        → Goes e
            (record e { confirming = before ++ after; waiting = n; executing = vals ∷ e.executing })
    -- pe.executeTasks(vals), back to the select
    execute :
        (before after : List (List T)) (vals : List T)
        → e.executing ≡ before ++ vals ∷ after
        → Goes e (record e {
          executing = before ++ after;
          executed = e.executed ++ vals;
          selecting = e.selecting + 1;
        })
    -- a tick: Flush by the background goroutine
    tick :
        (n : ℕ)
        → e.selecting ≡ suc n
        → Goes e (record e { selecting = n; container = []; executing = e.container ∷ e.executing })
    -- shallQuit
    quit :
        (n : ℕ)
        → e.selecting ≡ suc n
        → e.inflight ≡ 0
        → Goes e (record e { selecting = n; guarded = false; quitting = e.quitting + 1 })
    -- the deferred Flush of a background goroutine that has quit
    last_flush :
        (n : ℕ)
        → e.quitting ≡ suc n
        → Goes e (record e { quitting = n; container = []; flushing = e.container ∷ e.flushing })
    finish :
        (before after : List (List T)) (vals : List T)
        → e.flushing ≡ before ++ vals ∷ after
        → Goes e (record e { flushing = before ++ after; executed = e.executed ++ vals })

  -- A step: a goroutine goes on, or Add or Flush is called.
  pub data Step (full : List T → Bool) (e : Executor T) : Executor T → Type 0 where
    goes : {e' : Executor T} → Goes e e' → Step full e e'
    add_call : (task : T) → Step full e (add_and_check full task e)
    flush_call : Step full e (record e { container = []; flushing = e.container ∷ e.flushing })

  pub data Steps (full : List T → Bool) (e : Executor T) : Executor T → Type 0 where
    here : Steps full e e
    next : {e' e'' : Executor T} → Steps full e e' → Step full e' e'' → Steps full e e''

  -- The goroutines go on, without an Add or a Flush that is called.
  pub data Runs (e : Executor T) : Executor T → Type 0 where
    rests : Runs e e
    runs : {e' e'' : Executor T} → Runs e e' → Goes e' e'' → Runs e e''
