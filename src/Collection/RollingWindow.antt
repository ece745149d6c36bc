-- ===== src/Collection/RollingWindow.antt =====
-- core/collection/rollingwindow.go: a window of buckets over the last `size` intervals.
-- Times are nanoseconds of the monotonic clock timex.Now, passed to each method that reads it:
-- updateOffset reads it twice, `now` in span and `now'` when it aligns the last time. The lock
-- makes each method one step.
pub mod Bucket
pub mod View
pub mod Refine
pub mod Slots
pub mod Timed
pub mod History
mod Tests
use fastgozero.Prelude.{
  ℕ, zero, suc, ◌+◌, ◌-◌, ◌/◌, ◌%◌, List, Bool, true, false, ◌&&◌, Option, none, some, ltb, leb,
  ◌==◌, if◌then◌else◌, length, get_or, set, replicate,
}
use fastgozero.Prelude.Cyclic.{cycle}

-- BucketInterface: what the window asks of a bucket.
pub record BucketInterface {ℓ} (V B : Type ℓ) : Type ℓ where
  pub fresh : B
  pub add : V → B → B
  pub reset : B → B

-- RollingWindow, with the buckets of its `window`.
pub record RollingWindow {ℓ} (B : Type ℓ) : Type ℓ where
  pub size : ℕ
  pub buckets : List B
  pub interval : ℕ
  pub offset : ℕ
  pub ignore_current : Bool
  pub last_time : ℕ

module _ {ℓ} {B : Type ℓ} where
  -- span: how many intervals have begun since the last time, `size` at most. Go's division of a
  -- negative duration rounds towards zero.
  unfoldable pub span : ℕ → RollingWindow B → ℕ
  span now rw =
      if leb rw.last_time now
      then (if ltb ((now - rw.last_time) / rw.interval) rw.size
          then (now - rw.last_time) / rw.interval
          else rw.size)
      else (if (rw.last_time - now) / rw.interval == 0 then 0 else rw.size)

module _ {ℓ} {V B : Type ℓ} (i : BucketInterface V B) where
  -- NewRollingWindow; `none` is the panic.
  unfoldable pub new_rolling_window : ℕ → ℕ → Bool → ℕ → Option (RollingWindow B)
  new_rolling_window size interval ignore_current now =
      if ltb size 1
      then none
      else some (record {
        size = size;
        buckets = replicate size i.fresh;
        interval = interval;
        offset = 0;
        ignore_current = ignore_current;
        last_time = now;
      })

  -- window.resetBucket
  unfoldable pub reset_bucket : ℕ → ℕ → List B → List B
  reset_bucket size offset buckets =
      set buckets (offset % size) (i.reset (get_or buckets (offset % size) i.fresh))

  -- The loop of updateOffset, from its round `k` on.
  unfoldable pub reset_expired : ℕ → ℕ → ℕ → ℕ → List B → List B
  reset_expired size offset k zero buckets = buckets
  reset_expired size offset k (suc rounds) buckets =
      reset_expired size offset (k + 1) rounds (reset_bucket size ((offset + k + 1) % size) buckets)

  -- updateOffset
  unfoldable pub update_offset : ℕ → ℕ → RollingWindow B → RollingWindow B
  update_offset now now' w =
      let s = span now w in
      if leb s 0 then w else record w {
        buckets = reset_expired w.size w.offset 0 s w.buckets;
        offset = (w.offset + s) % w.size;
        last_time = now' - (now' - w.last_time) % w.interval;
      }

  -- window.add
  unfoldable pub window_add : ℕ → ℕ → V → List B → List B
  window_add size offset v buckets =
      set buckets (offset % size) (i.add v (get_or buckets (offset % size) i.fresh))

  -- Add
  unfoldable pub add : ℕ → ℕ → V → RollingWindow B → RollingWindow B
  add now now' v w =
      let w' = update_offset now now' w in
      record w' { buckets = window_add w'.size w'.offset v w'.buckets }

  -- The buckets that Reduce hands to its callback, in order.
  unfoldable pub reduce : ℕ → RollingWindow B → List B
  reduce now w =
      let s = span now w in
      let diff = if s == 0 && w.ignore_current then w.size - 1 else w.size - s in
      cycle i.fresh w.buckets w.size ((w.offset + s + 1) % w.size) 0 diff
