-- ===== src/Collection/RollingWindow/Tests.antt =====
-- Runs of core/collection/rollingwindow.go, with the buckets that it comes with: Bucket, a sum and a
-- count.
use fastgozero.Prelude.{
  ℕ, ◌+◌, ◌-◌, ◌≡◌, refl, ◌&&◌, List, [], ◌∷◌, false, arith, ◌==◌, if◌then◌else◌,
}
use fastgozero.Prelude.Cyclic.{cycle}
use fastgozero.Collection.RollingWindow.{
  RollingWindow, span, new_rolling_window, reset_bucket, reset_expired, update_offset, window_add,
  add, reduce,
}
use fastgozero.Collection.RollingWindow.Bucket.{Bucket, bucket_interface}
use fastgozero.Collection.RollingWindow.Refine.{IsValid}
use fastgozero.Collection.RollingWindow.Slots.{slots}
use fastgozero.Collection.RollingWindow.Timed.{interval_at, last_of, history}
use fastgozero.Collection.RollingWindow.History.{add_read, stamped, reduce_recent}

-- Three buckets of 10, made at time 100.
abbrev made : RollingWindow Bucket
made = record {
  size = 3;
  buckets =
      record { sum = 0; count = 0 }
      ∷ record { sum = 0; count = 0 }
      ∷ record { sum = 0; count = 0 }
      ∷ [];
  interval = 10;
  offset = 0;
  ignore_current = false;
  last_time = 100;
}

made-IsValid : IsValid made
made-IsValid = record {
  some_size = omega arith;
  sized = refl;
  offset_in = omega arith;
  some_interval = omega arith;
}

-- The second and third Add read the clock twice.
abbrev events : List (ℕ × ℕ × ℕ)
events = (101, 101, 1) ∷ (108, 109, 2) ∷ (115, 117, 3) ∷ (135, 135, 4) ∷ []

reduce-events :
    reduce bucket_interface 141 (add_read bucket_interface events made)
    ≡ record { sum = 0; count = 0 } ∷ record { sum = 4; count = 1 } ∷ []
unfolding reduce add_read add span update_offset reset_expired reset_bucket window_add cycle
reduce-events = refl

reduce_recent_example :
    (let h = history bucket_interface 100 10 3 (stamped events) (λ _. bucket_interface.fresh) in
      let e = interval_at 100 10 (last_of 100 (stamped events)) in
      let k = interval_at 100 10 141 in
      reduce bucket_interface 141 (add_read bucket_interface events made)
      ≡ (if k == e && false then slots h e (3 - 1) else slots h k (e + 3 - k)))
unfolding new_rolling_window last_of interval_at
reduce_recent_example =
    reduce_recent bucket_interface (λ b. refl) 3 10 false 100 events 141 {w = made} (omega arith)
      refl (omega arith)
      (omega arith, refl, (omega arith, refl, (omega arith, refl, (omega arith, refl, tt))))
      (omega arith)

-- An Add whose readings are on two sides of a boundary moves on by one bucket and by two intervals.
add-across :
    (add bucket_interface 119 121 5 made).offset ≡ 1
    × ((add bucket_interface 119 121 5 made).last_time ≡ 120)
unfolding add update_offset span reset_expired reset_bucket
add-across = (refl, refl)
