-- ===== src/Database/Report.antt =====
-- include/zidanedb/database.h: what the constructor of `Database` says of a recovery.
use zidanedb.Base.{ℕ}

pub data RecoveryReason : Type 0 where
  none missing_index invalid_index unclean_index : RecoveryReason

pub data RecoveryAction : Type 0 where
  none full_index_rebuild : RecoveryAction

pub record RecoveryReport : Type 0 where
  pub reason : RecoveryReason
  pub action : RecoveryAction
  pub truncated_bytes : ℕ
