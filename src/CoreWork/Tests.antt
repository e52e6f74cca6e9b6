-- ===== src/CoreWork/Tests.antt =====
-- src/database/core_work.rs: the theorems at concrete tables, and runs of the statements.
use Prim.Native.String.{String}
use mail_subsystem.Prelude.{
  ℕ, ◌+◌, ◌≡◌, refl, ◌↔◌, inl, inr, Bool, true, false, List, [], ◌∷◌, some, arith, In, All, length,
}
use mail_subsystem.Prelude.Int.{pos}
use mail_subsystem.Prelude.Text.{codes}
use mail_subsystem.Json.{null, obj, end}
use mail_subsystem.Sql.{select_where, any_id, order_by, insert_by, keys_before}
use mail_subsystem.CoreWork.{
  sync_incremental, analyze, locate, subagent_task, as_str, from_str, Row, Db, ok, is_claimable,
}
use mail_subsystem.CoreWork.Kinds.{from_str_iff}
use mail_subsystem.CoreWork.Table.{
  new_row, claim_core_work_for_account, claim_core_work_batch_for_account,
  enqueue_core_work_for_account, claim_chosen, claimable, entry_of_first, entry_of_row, claim_row,
}
use mail_subsystem.CoreWork.Settle.{
  is_claimed, is_claimed_by, recover_orphaned_core_work_for_account,
  release_core_work_for_worker_for_account, mark_core_work_done_for_account, done_row,
}
use mail_subsystem.CoreWork.Invariant.{IsWellFormed, run-IsWellFormed}
use mail_subsystem.CoreWork.Claim.{ClaimsFirst, claim-ClaimsFirst}
use mail_subsystem.CoreWork.ClaimBatch.{IsBatchClaim, claim_batch-IsBatchClaim}
use mail_subsystem.CoreWork.Attempts.{IsWithinBudget, apply-IsWithinBudget}
use mail_subsystem.CoreWork.Recovery.{IsUnlocked, recover-IsUnlocked, release-IsUnlocked}
use mail_subsystem.CoreWork.CrashLoop.{Loss, stale_lock, restart, crash_rounds, crash_loop}
use mail_subsystem.CoreWork.Requeue.{enqueue-mark_done_swallows}
use mail_subsystem.CoreWork.Ops.{Op, enqueue, claim, mark_retry_or_dead, apply, run}

abbrev empty : Db
empty = record { next_id = 1; rows = []; tasks = [] }

abbrev first : Row
first = new_row "default" analyze "pipeline" null 100 1

abbrev second_row : Row
second_row = new_row "default" sync_incremental "periodic" null 100 2

abbrev sub : Row
sub = new_row "default" subagent_task "task-1" null 50 3

abbrev table : Db
table = record { next_id = 4; rows = first ∷ second_row ∷ sub ∷ []; tasks = [] }

table-IsWellFormed : IsWellFormed table
table-IsWellFormed = record {
  ids_grow = omega arith;
  ids_below = omega arith;
  keys_unique = ((refl, (refl, tt)), ((refl, tt), (tt, tt)));
  locks_right = (
    record { lock = refl; owner = refl },
    (record { lock = refl; owner = refl }, (record { lock = refl; owner = refl }, tt)),
  );
}

abbrev free : ℕ → Bool
free i = false

-- The oldest pipeline work is claimed before the sub-agent task, and at equal times the sync first.
claim_prefers_sync :
    (claim_core_work_for_account "default" "w" free 200 table).1
    ≡ ok (
        some (record {
          id = 2;
          work_type = sync_incremental;
          payload = null;
          attempt_count = 1;
          max_attempts = 3;
        }))
unfolding claim_core_work_for_account claim_chosen claimable select_where order_by insert_by
    keys_before any_id entry_of_first entry_of_row from_str as_str
claim_prefers_sync = refl

claim-ClaimsFirst_example :
    ClaimsFirst "default" "w" free 200 table
      (claim_core_work_for_account "default" "w" free 200 table)
claim-ClaimsFirst_example = claim-ClaimsFirst "default" "w" free 200 table table-IsWellFormed

claim_batch-IsBatchClaim_example :
    IsBatchClaim "default" "w" subagent_task 3 free 200 table
      (claim_core_work_batch_for_account "default" "w" subagent_task 3 free 200 table)
claim_batch-IsBatchClaim_example =
    claim_batch-IsBatchClaim "default" "w" subagent_task 3 free 200 table table-IsWellFormed

empty-IsWellFormed : IsWellFormed empty
empty-IsWellFormed = record { ids_grow = tt; ids_below = tt; keys_unique = tt; locks_right = tt }

abbrev history : List (Op × ℕ)
history =
    (enqueue "default" analyze "pipeline" null, 100)
    ∷ (claim "default" "w" free, 110)
    ∷ (mark_retry_or_dead "default" 1 1 3 (pos 60) (codes "boom"), 120)
    ∷ (enqueue "default" locate "pipeline" null, 130)
    ∷ []

run-IsWellFormed_example : IsWellFormed (run history empty)
run-IsWellFormed_example = run-IsWellFormed history empty empty-IsWellFormed

abbrev alone : Db
alone = record { next_id = 2; rows = first ∷ []; tasks = [] }

abbrev deaths : List Loss
deaths = restart ∷ stale_lock ∷ restart ∷ restart ∷ restart ∷ []

-- Five deaths of the worker use five attempts of a row that has three.
crash_loop_example :
    (last : Row) × ((run
        (crash_rounds "default" "w" (pos 600) (codes "lost") deaths 100)
        alone).rows
      ≡ last ∷ [])
    × (last.attempt_count ≡ first.attempt_count + length deaths)
    × (last.max_attempts ≡ first.max_attempts)
    × (is_claimable last.status ≡ true)
crash_loop_example =
    crash_loop "default" "w" (pos 600) (codes "lost") deaths 100 alone first refl refl

abbrev busy_row : Row
busy_row = claim_row "w" 150 sub

abbrev busy : Db
busy = record { next_id = 4; rows = first ∷ second_row ∷ busy_row ∷ []; tasks = [] }

busy-IsWellFormed : IsWellFormed busy
busy-IsWellFormed = record {
  ids_grow = omega arith;
  ids_below = omega arith;
  keys_unique = ((refl, (refl, tt)), ((refl, tt), (tt, tt)));
  locks_right = (
    record { lock = refl; owner = refl },
    (record { lock = refl; owner = refl }, (record { lock = refl; owner = refl }, tt)),
  );
}

abbrev fails : Op
fails = mark_retry_or_dead "default" 3 1 3 (pos 60) (codes "boom")

apply-IsWithinBudget_example : All IsWithinBudget (apply fails 200 busy).rows
apply-IsWithinBudget_example =
    apply-IsWithinBudget fails 200 busy busy-IsWellFormed refl (refl, (refl, (refl, tt)))
      (omega arith)

recover-IsUnlocked_example :
    IsUnlocked "default"
      (is_claimed "default")
      (codes "start")
      300
      busy
      (recover_orphaned_core_work_for_account "default" (codes "start") 300 busy)
recover-IsUnlocked_example = recover-IsUnlocked "default" (codes "start") 300 busy

release-IsUnlocked_example :
    IsUnlocked "default"
      (is_claimed_by "default" "w")
      (codes "stop")
      300
      busy
      (release_core_work_for_worker_for_account "default" "w" (codes "stop") 300 busy)
release-IsUnlocked_example = release-IsUnlocked "default" "w" (codes "stop") 300 busy

enqueue-mark_done_swallows_example :
    In
      (record (done_row 400 busy_row) { payload = obj end })
      (mark_core_work_done_for_account "default" 3 400
        (enqueue_core_work_for_account "default" subagent_task "task-1"
          (obj end)
          300
          busy).0).0.rows
enqueue-mark_done_swallows_example =
    enqueue-mark_done_swallows "default" subagent_task "task-1" (obj end) 300 400 busy busy_row
      busy-IsWellFormed (inr (inr (inl refl))) refl refl

from_str_iff_example :
    (from_str "locate" ≡ some locate) ↔ (◌≡◌ {A = String} "locate" (as_str locate))
from_str_iff_example = from_str_iff "locate" locate
