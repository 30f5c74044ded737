-- ===== src/Metrics/Transfer.antt =====
-- crates/metrics/src/transfer.rs: how many transfers were started, and how many bytes they moved.
use yeet_yoink.Common.{ℕ, String, true, false, Bool, add_word, if◌then◌else◌}

pub data TransferMethod : Type 0 where
  store fetch : TransferMethod

-- `Display`
abbrev pub transfer_text : TransferMethod → String
transfer_text store = "store"
transfer_text fetch = "fetch"

abbrev same_method : TransferMethod → TransferMethod → Bool
same_method store store = true
same_method fetch fetch = true
same_method _ _ = false

-- The two counters of each method, `TRANSFER_COUNT` and `TRANSFER_SIZES`.
pub record TransferMetrics : Type 0 where
  pub transfer_count : TransferMethod → ℕ
  pub transfer_sizes : TransferMethod → ℕ

unfoldable pub track_transfer : TransferMethod → TransferMetrics → TransferMetrics
track_transfer transfer m = record m {
  transfer_count = λ method.
      if same_method method transfer
      then add_word (m.transfer_count method) 1
      else m.transfer_count method;
}

unfoldable pub track_bytes_transferred : TransferMethod → ℕ → TransferMetrics → TransferMetrics
track_bytes_transferred transfer bytes m = record m {
  transfer_sizes = λ method.
      if same_method method transfer
      then add_word (m.transfer_sizes method) bytes
      else m.transfer_sizes method;
}
