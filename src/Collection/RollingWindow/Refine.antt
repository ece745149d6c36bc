-- ===== src/Collection/RollingWindow/Refine.antt =====
-- What Add and Reduce of a rolling window (core/collection/rollingwindow.go) do to the list of its
-- buckets, oldest first.
use fastgozero.Prelude.{
  ℕ, ◌+◌, ◌-◌, ◌%◌, ◌≤◌, ◌<◌, ◌≡◌, ap, sym, ◌∙◌, ◌&&◌, Bool, List, some, inl, inr, arith, leb, ◌==◌,
  if◌then◌else◌, Bool-cases, length, take, drop, length-set, length-replicate,
}
use fastgozero.Prelude.Cyclic.{cycle, mod-lt'}
use fastgozero.Collection.RollingWindow.{
  BucketInterface, RollingWindow, span, new_rolling_window, reset_expired, update_offset,
  window_add, add, reduce,
}
use fastgozero.Collection.RollingWindow.View.{
  view_of, map_last, roll, length-reset_expired, view_of-mod, take-view_of, drop-view_of,
  view-reset_expired, view-window_add,
}

pub record IsValid {ℓ} {B : Type ℓ} (w : RollingWindow B) : Type ℓ where
  pub some_size : 0 < w.size
  pub sized : length w.buckets ≡ w.size
  pub offset_in : w.offset < w.size
  pub some_interval : 0 < w.interval

pub span-le {ℓ} : {B : Type ℓ} (now : ℕ) (w : RollingWindow B) → span now w ≤ w.size
unfolding span
span-le now w = ground arith

module _ {ℓ} {V B : Type ℓ} (i : BucketInterface V B) where
  -- The buckets of a window, oldest first.
  unfoldable pub view : RollingWindow B → List B
  view w = view_of i.fresh w.buckets w.size w.offset

  -- NewRollingWindow with a positive interval makes a valid window.
  pub new_rolling_window-IsValid :
      (size interval : ℕ) (ignore : Bool) (now : ℕ) {w : RollingWindow B}
      → 0 < interval
      → new_rolling_window i size interval ignore now ≡ some w
      → IsValid w
  unfolding new_rolling_window
  new_rolling_window-IsValid size interval ignore now h e =
      ground (arith, length-replicate size i.fresh)

  -- updateOffset keeps the window valid.
  pub update_offset-IsValid :
      (now now' : ℕ) {w : RollingWindow B} → IsValid w → IsValid (update_offset i now now' w)
  unfolding update_offset
  update_offset-IsValid now now' {w} h = ground (
    arith,
    length-reset_expired i w.size w.offset 0 (span now w) w.buckets,
    mod-lt' (w.offset + span now w) w.size,
  )

  -- updateOffset: as many buckets as intervals have begun are reset, the oldest first, and become
  -- the newest.
  pub view-update_offset :
      (now now' : ℕ) {w : RollingWindow B}
      → IsValid w
      → view (update_offset i now now' w) ≡ roll i (span now w) (view w)
  unfolding update_offset view roll
  view-update_offset now now' {w} h = elim (Bool-cases (leb (span now w) 0)) [
    | inl e ↦ rw e (
        ap (λ k. roll i k (view_of i.fresh w.buckets w.size w.offset)) {x = 0} {y = span now w}
          (ground arith))
    | inr e ↦ rw e (
        view_of-mod i.fresh expired w.size (w.offset + span now w)
        ∙ ap (λ o. view_of i.fresh expired w.size (o + span now w)) (sym same)
        ∙ view-reset_expired i w.size (w.size - 1) (omega (arith, h.some_size)) w.offset 0
            (span now w) w.buckets h.sized
        ∙ ap (λ o. roll i (span now w) (view_of i.fresh w.buckets w.size o)) same)
  ]
    where
      expired : List B
      expired = reset_expired i w.size w.offset 0 (span now w) w.buckets

      same : w.offset + 0 ≡ w.offset
      same = omega arith

  -- Add keeps the window valid.
  pub add-IsValid :
      (now now' : ℕ) (v : V) {w : RollingWindow B} → IsValid w → IsValid (add i now now' v w)
  unfolding add window_add
  add-IsValid now now' v {w} h =
      let u = update_offset-IsValid now now' h in
      record {
        some_size = u.some_size;
        sized = length-set (update_offset i now now' w).buckets _ _ ∙ u.sized;
        offset_in = u.offset_in;
        some_interval = u.some_interval;
      }

  -- Add: the expired buckets are reset and become the newest, and then the value goes into the
  -- newest bucket.
  pub view-add :
      (now now' : ℕ) (v : V) {w : RollingWindow B}
      → IsValid w
      → view (add i now now' v w) ≡ map_last (i.add v) (roll i (span now w) (view w))
  unfolding add
  view-add now now' v {w} h =
      let u = update_offset-IsValid now now' h in
      newest (update_offset i now now' w) u
      ∙ ap (map_last (i.add v)) (view-update_offset now now' h)
    where
      newest :
          (w' : RollingWindow B)
          → IsValid w'
          → view (record w' { buckets = window_add i w'.size w'.offset v w'.buckets })
            ≡ map_last (i.add v) (view w')
      newest w' u =
          unfold view in
          view-window_add i w'.size (w'.size - 1) (omega (arith, u.some_size)) w'.offset v
            w'.buckets u.sized u.offset_in

  -- Reduce hands over the buckets that have not expired, oldest first; if no interval has begun
  -- since the last time and the current bucket is to be ignored, all but the newest.
  pub reduce-view :
      (now : ℕ) {w : RollingWindow B}
      → IsValid w
      → reduce i now w ≡ (
          if span now w == 0 && w.ignore_current
          then take (w.size - 1) (view w)
          else drop (span now w) (view w))
  unfolding reduce view
  reduce-view now {w} h = elim (Bool-cases (span now w == 0 && w.ignore_current)) [
    | inl e ↦ rw e (
        ap (λ o. cycle i.fresh w.buckets w.size (o % w.size) 0 (w.size - 1)) (ground arith)
        ∙ sym (take-view_of i.fresh w.buckets w.size (w.size - 1) w.offset (omega arith)))
    | inr e ↦
        rw e (sym (drop-view_of i.fresh w.buckets w.size (span now w) w.offset (span-le now w)))
  ]
