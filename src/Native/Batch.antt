-- ===== src/Native/Batch.antt =====
-- native/native_uuid_collection.go: the batch size of the cursor over a time window.
-- `duration_string` is the text of a duration.
use publish_carousel.Prelude.{
  ℕ, zero, suc, ◌*◌, ◌-◌, ◌/◌, ◌≤◌, ◌<◌, String, ◌≡◌, ◌↔◌, [], ◌∷◌, arith, Result, ok, err, panic,
  if◌then◌else◌, concat,
}
use native.Mathlib.Nat.{div-mul-le_self}
use publish_carousel.Prelude.Int.{ℤ, pos, negsuc, pos_part, leb_ℤ, ltb_ℤ, quot, is_zero}

-- Ten minutes, in nanoseconds.
abbrev pub mongo_cursor_timeout : ℕ
mongo_cursor_timeout = 600000000000

abbrev pub max_batch_size : ℕ
max_batch_size = 80

module _ (duration_string : ℤ → String) where
  -- A zero interval divides by zero.
  unfoldable pub compute_batchsize : ℤ → Result ℕ
  unfolding quot
  compute_batchsize interval =
      if leb_ℤ (pos mongo_cursor_timeout) interval
      then err (
          concat (
            "Cannot have an interval greater than the mongo default timeout. Interval "
            ∷ duration_string interval
            ∷ ", mongo timeout "
            ∷ duration_string (pos mongo_cursor_timeout)
            ∷ []))
      else if is_zero interval
      then panic
      else (let size = quot (pos mongo_cursor_timeout) interval in
          if leb_ℤ size (pos 1)
          then ok 1
          else if ltb_ℤ (pos max_batch_size) size
          then ok max_batch_size
          else ok (pos_part size - 1))

  -- A batch size lies between 1 and 80.
  pub compute_batchsize_bounds :
      (interval : ℤ) {size : ℕ}
      → compute_batchsize interval ≡ ok size
      → (1 ≤ size) × (size ≤ max_batch_size)
  unfolding compute_batchsize
  compute_batchsize_bounds (pos n) h = ground arith
  compute_batchsize_bounds (negsuc n) h = ground arith

  capped : (q n : ℕ) → 80 < q → q * n ≤ mongo_cursor_timeout → 0 < n → 80 * n < mongo_cursor_timeout
  capped q n c w h = grind arith

  one_less :
      (q n : ℕ) → 1 < q → q * n ≤ mongo_cursor_timeout → 0 < n → (q - 1) * n < mongo_cursor_timeout
  one_less zero n c w h = elim c [ ]
  one_less (suc q) n c w h = grind arith

  -- The cursor does not time out between two batches: a batch of this size, at one UUID for each
  -- positive interval, takes less time than the server keeps an idle cursor.
  compute_batchsize_in_time :
      (interval : ℕ) {size : ℕ}
      → 0 < interval
      → compute_batchsize (pos interval) ≡ ok size
      → size * interval < mongo_cursor_timeout
  unfolding compute_batchsize
  compute_batchsize_in_time n h e = ground (
    arith,
    div-mul-le_self mongo_cursor_timeout n,
    capped (mongo_cursor_timeout / n) n,
    one_less (mongo_cursor_timeout / n) n,
  )

  -- The computation panics exactly at the interval zero.
  compute_batchsize_panics :
      (interval : ℤ) → (compute_batchsize interval ≡ panic) ↔ (interval ≡ pos 0)
  unfolding compute_batchsize
  compute_batchsize_panics (pos n) = (λ h. ground arith, λ h. ground arith)
  compute_batchsize_panics (negsuc n) = (λ h. ground arith, λ h. ground arith)
