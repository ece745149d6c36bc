-- ===== src/Collection/RollingWindow/Bucket.antt =====
-- core/collection/rollingwindow.go: Bucket, the sum and the number of what was added.
use fastgozero.Prelude.{ℕ, ◌+◌}
use fastgozero.Collection.RollingWindow.{BucketInterface}

pub record Bucket : Type 0 where
  pub sum : ℕ
  pub count : ℕ

-- Bucket.Add and Bucket.Reset, over numbers that do not overflow.
abbrev pub bucket_interface : BucketInterface ℕ Bucket
bucket_interface = record {
  fresh = record { sum = 0; count = 0 };
  add = λ v b. record { sum = b.sum + v; count = b.count + 1 };
  reset = λ b. record { sum = 0; count = 0 };
}
