-- ===== src/CoreWork/Ops.antt =====
-- src/database/core_work.rs: the statements that change core_work_queue, as one type of operations,
-- each with the time at which it runs, and a history of them.
use Prim.Native.String.{String}
use mail_subsystem.Prelude.{ℕ, Bool, List, [], ◌∷◌}
use mail_subsystem.Prelude.Int.{ℤ}
use mail_subsystem.Prelude.Text.{Text}
use mail_subsystem.Json.{Json}
use mail_subsystem.CoreWork.{CoreWorkType, Db}
use mail_subsystem.CoreWork.Table.{
  enqueue_core_work_for_account, claim_core_work_for_account, claim_core_work_batch_for_account,
}
use mail_subsystem.CoreWork.Settle.{
  mark_core_work_done_for_account, mark_core_work_retry_or_dead_for_account,
  reset_stale_core_work_for_account, recover_orphaned_core_work_for_account,
  release_core_work_for_worker_for_account,
}

pub data Op : Type 0 where
  enqueue : String → CoreWorkType → String → Json → Op
  claim : String → String → (ℕ → Bool) → Op
  claim_batch : String → String → CoreWorkType → ℕ → (ℕ → Bool) → Op
  mark_done : String → ℕ → Op
  mark_retry_or_dead : String → ℕ → ℕ → ℕ → ℤ → Text → Op
  reset_stale : String → ℤ → Op
  recover : String → Text → Op
  release : String → String → Text → Op

-- The table after one operation at the time `now`.
unfoldable pub apply : Op → ℕ → Db → Db
apply (enqueue account t key payload) now db =
    (enqueue_core_work_for_account account t key payload now db).0
apply (claim account worker skip) now db =
    (claim_core_work_for_account account worker skip now db).0
apply (claim_batch account worker t limit skip) now db =
    (claim_core_work_batch_for_account account worker t limit skip now db).0
apply (mark_done account i) now db = (mark_core_work_done_for_account account i now db).0
apply (mark_retry_or_dead account i attempts max_attempts retry error) now db =
    (mark_core_work_retry_or_dead_for_account account i attempts max_attempts retry error now db).0
apply (reset_stale account secs) now db = (reset_stale_core_work_for_account account secs now db).0
apply (recover account reason) now db =
    (recover_orphaned_core_work_for_account account reason now db).0
apply (release account worker reason) now db =
    (release_core_work_for_worker_for_account account worker reason now db).0

-- A history: operations with their times.
unfoldable pub run : List (Op × ℕ) → Db → Db
run [] db = db
run ((op, now) ∷ ops) db = run ops (apply op now db)
