-- ===== src/FrontierQueue/Tests.antt =====
-- Runs of the statements of src/database/frontier_queue.rs.
use Prim.Native.String.{String}
use text.Mathlib.Text.{◌==◌ as str_eq}
use mail_subsystem.Prelude.{ℕ, ◌+◌, ◌≡◌, refl, List, [], ◌∷◌, Bool, false, map, Option}
use mail_subsystem.Sql.{
  select_where, update_where, upsert_where, order_by, keys_before, count_where,
}
use mail_subsystem.CoreWork.{Status, pending, processing, dead}
use mail_subsystem.FrontierQueue.{
  FrontierRow, FrontierDb, enqueue_frontier_analysis_for_account,
  claim_frontier_queue_batch_for_account, frontier_claimable, frontier_queue_depth_for_account,
}
use mail_subsystem.FrontierQueue.Histories.{
  FrontierOp, frontier_apply, frontier_run, IsFrontierTable, frontier_run-IsFrontierTable,
}
use mail_subsystem.FrontierQueue.Depth.{depth-total}

abbrev empty_db : FrontierDb
empty_db = record { rows = []; emails = ("me", "m1") ∷ ("me", "m2") ∷ [] }

abbrev skip_none : String → Bool
skip_none m = false

abbrev claims : List (FrontierOp × ℕ)
claims =
    (FrontierOp.enqueue "me" "m1", 10)
    ∷ (FrontierOp.enqueue "me" "m2", 11)
    ∷ (FrontierOp.claim "me" "w" 1 skip_none, 20)
    ∷ []

abbrev statuses : FrontierDb → List (String × Status)
statuses db = map (λ (r : FrontierRow). (r.message_id, r.status)) db.rows

claims_first : statuses (frontier_run claims empty_db) ≡ ("m1", processing) ∷ ("m2", pending) ∷ []
unfolding frontier_run frontier_apply enqueue_frontier_analysis_for_account upsert_where
    claim_frontier_queue_batch_for_account frontier_claimable order_by select_where update_where
    keys_before
claims_first = refl

frontier_run-IsFrontierTable_example : IsFrontierTable (frontier_run claims empty_db).rows
frontier_run-IsFrontierTable_example =
    frontier_run-IsFrontierTable claims empty_db (record { keys_unique = tt; all_right = tt })

abbrev dead_row : FrontierRow
dead_row = record {
  account_id = "me";
  message_id = "m1";
  enqueued_at = 1;
  status = dead;
  attempt_count = 3;
  available_at = 1;
  locked_at = Option.none;
  worker_id = Option.none;
  last_error = Option.none;
  updated_at = 1;
}

abbrev one_dead : FrontierDb
one_dead = record { rows = dead_row ∷ []; emails = ("me", "m1") ∷ [] }

depth-total_example :
    (frontier_queue_depth_for_account "me" one_dead).pending
      + (frontier_queue_depth_for_account "me" one_dead).failed
      + (frontier_queue_depth_for_account "me" one_dead).processing
      + (frontier_queue_depth_for_account "me" one_dead).dead
    ≡ count_where (λ (r : FrontierRow). str_eq r.account_id "me") one_dead.rows
depth-total_example = depth-total "me" one_dead (record {
  keys_unique = (tt, tt);
  all_right = (record { lock = refl; owner = refl; never_done = refl }, tt);
})
