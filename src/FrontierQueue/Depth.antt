-- ===== src/FrontierQueue/Depth.antt =====
-- src/database/frontier_queue.rs: the queue's depth.
use Prim.Native.String.{String}
use text.Mathlib.Text.{◌==◌ as str_eq}
use mail_subsystem.Prelude.{◌+◌, ◌≡◌, refl, Bool, ◌&&◌, List, [], ◌∷◌, arith, All, if◌then◌else◌}
use mail_subsystem.Sql.{count_where}
use mail_subsystem.CoreWork.{is_pending, is_processing, is_failed, is_dead}
use mail_subsystem.FrontierQueue.{FrontierRow, FrontierDb, frontier_queue_depth_for_account}
use mail_subsystem.FrontierQueue.Histories.{IsFrontierRow, IsFrontierTable}

-- A row that is not done is in one of the four buckets.
row_in_one_bucket :
    (r : FrontierRow) (mine : Bool)
    → IsFrontierRow r
    → (if mine && is_pending r.status then 1 else 0)
        + (if mine && is_failed r.status then 1 else 0)
        + (if mine && is_processing r.status then 1 else 0)
        + (if mine && is_dead r.status then 1 else 0)
      ≡ (if mine then 1 else 0)
row_in_one_bucket r mine h = ground (arith, h.never_done)

buckets_sum :
    (account : String) (rows : List FrontierRow)
    → All IsFrontierRow rows
    → count_where (λ (r : FrontierRow). str_eq r.account_id account && is_pending r.status) rows
        + count_where (λ (r : FrontierRow). str_eq r.account_id account && is_failed r.status) rows
        + count_where
            (λ (r : FrontierRow). str_eq r.account_id account && is_processing r.status)
            rows
        + count_where (λ (r : FrontierRow). str_eq r.account_id account && is_dead r.status) rows
      ≡ count_where (λ (r : FrontierRow). str_eq r.account_id account) rows
unfolding count_where
buckets_sum account [] h = refl
buckets_sum account (r ∷ rs) h =
    omega (arith, row_in_one_bucket r (str_eq r.account_id account) h.0, buckets_sum account rs h.1)

-- In a table that is right the four numbers of the depth add up to the account's jobs: none is
-- counted twice or left out.
pub depth-total :
    (account : String) (db : FrontierDb)
    → IsFrontierTable db.rows
    → (frontier_queue_depth_for_account account db).pending
        + (frontier_queue_depth_for_account account db).failed
        + (frontier_queue_depth_for_account account db).processing
        + (frontier_queue_depth_for_account account db).dead
      ≡ count_where (λ (r : FrontierRow). str_eq r.account_id account) db.rows
unfolding frontier_queue_depth_for_account
depth-total account db w = buckets_sum account db.rows w.all_right
