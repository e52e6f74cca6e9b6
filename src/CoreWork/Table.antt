-- ===== src/CoreWork/Table.antt =====
-- src/database/core_work.rs: the statements on core_work_queue. NOW() is the argument `now`; a
-- statement takes effect at once, and the rows that other transactions hold locked, which
-- FOR UPDATE SKIP LOCKED passes over, are those of `skip`. Metrics and log lines are left out.
use Prim.Native.String.{String}
use text.Mathlib.Text.{◌==◌ as str_eq}
use mail_subsystem.Prelude.{
  ℕ, ◌+◌, Bool, not, ◌&&◌, List, [], ◌∷◌, Option, none, some, if◌then◌else◌, leb, map, take,
}
use mail_subsystem.Json.{Json}
use mail_subsystem.Sql.{select_where, update_where, upsert_where, keys_before, order_by, any_id}
use mail_subsystem.CoreWork.{
  CoreWorkType, as_str, from_str, same_type, sync_full, sync_incremental, sync_body, analyze, embed,
  locate, file_preview, file_apply, assistant_heartbeat, subagent_task, pending, processing,
  is_processing, is_claimable, Row, CoreWorkQueueEntry, Db, DbError, Result, ok, err,
}

-- The unique key of the table.
abbrev pub has_key : String → CoreWorkType → String → Row → Bool
has_key account work_type key r =
    str_eq r.account_id account && same_type r.work_type work_type && str_eq r.idempotency_key key

abbrev pub new_row : String → CoreWorkType → String → Json → ℕ → ℕ → Row
new_row account work_type key payload now id = record {
  id = id;
  account_id = account;
  work_type = work_type;
  idempotency_key = key;
  payload = payload;
  status = pending;
  attempt_count = 0;
  max_attempts = 3;
  available_at = now;
  locked_at = none;
  worker_id = none;
  last_error = none;
  created_at = now;
  updated_at = now;
  completed_at = none;
}

-- DO UPDATE SET: a row that is being processed keeps its claim.
abbrev pub requeue : Json → ℕ → Row → Row
requeue payload now r =
    let busy = is_processing r.status in
    record r {
      payload = payload;
      status = if busy then r.status else pending;
      attempt_count = if busy then r.attempt_count else 0;
      available_at = if busy then r.available_at else now;
      locked_at = if busy then r.locked_at else none;
      worker_id = if busy then r.worker_id else none;
      last_error = if busy then r.last_error else none;
      completed_at = none;
      updated_at = now;
    }

-- The sequence is read before the conflict is found, so it moves on in both cases.
unfoldable pub enqueue_core_work_for_account :
    String → CoreWorkType → String → Json → ℕ → Db → Db × ℕ
enqueue_core_work_for_account account work_type key payload now db = (
  record db {
    next_id = db.next_id + 1;
    rows =
        upsert_where (has_key account work_type key) (requeue payload now)
          (new_row account work_type key payload now db.next_id) db.rows;
  },
  1,
)

-- The CASE expressions of the ORDER BY.
abbrev pub claim_band : CoreWorkType → ℕ
claim_band assistant_heartbeat = 1
claim_band subagent_task = 1
claim_band _ = 0

abbrev pub claim_priority : CoreWorkType → ℕ
claim_priority sync_full = 0
claim_priority sync_body = 1
claim_priority sync_incremental = 2
claim_priority analyze = 3
claim_priority embed = 4
claim_priority locate = 5
claim_priority file_preview = 6
claim_priority file_apply = 7
claim_priority assistant_heartbeat = 8
claim_priority subagent_task = 9

abbrev pub claim_keys : Row → List ℕ
claim_keys r = claim_band r.work_type ∷ r.available_at ∷ claim_priority r.work_type ∷ r.id ∷ []

abbrev pub claim_before : Row → Row → Bool
claim_before a b = keys_before (claim_keys a) (claim_keys b)

abbrev pub is_due : String → ℕ → (ℕ → Bool) → Row → Bool
is_due account now skip r =
    str_eq r.account_id account
    && (is_claimable r.status && (leb r.available_at now && not (skip r.id)))

-- SET of both claims.
abbrev pub claim_row : String → ℕ → Row → Row
claim_row worker now r = record r {
  status = processing;
  attempt_count = r.attempt_count + 1;
  locked_at = some now;
  worker_id = some worker;
  updated_at = now;
}

abbrev pub ids : List Row → List ℕ
ids = map (λ (r : Row). r.id)

-- `q.account_id = $1 AND q.id = c.id`.
abbrev pub is_chosen : String → List Row → Row → Bool
is_chosen account chosen q = str_eq q.account_id account && any_id (ids chosen) q.id

unfoldable pub claimable : String → (ℕ → Bool) → ℕ → Db → List Row
claimable account skip now db =
    take 1 (order_by claim_before (select_where (is_due account now skip) db.rows))

-- The row handler of the claim; its work type is read back from the stored text.
unfoldable pub entry_of_row : Row → Result CoreWorkQueueEntry
entry_of_row r = elim (from_str (as_str r.work_type)) [
  | none ↦ err DbError.unknown_work_type
  | some t ↦ ok (record {
    id = r.id;
    work_type = t;
    payload = r.payload;
    attempt_count = r.attempt_count;
    max_attempts = r.max_attempts;
  })
]

-- `fetch_optional`, then `map(…).transpose()`.
unfoldable pub entry_of_first : List Row → Result (Option CoreWorkQueueEntry)
entry_of_first [] = ok none
entry_of_first (r ∷ rs) = elim (entry_of_row r) [ ok e ↦ ok (some e) | err x ↦ err x ]

unfoldable pub entries_of_rows : List Row → Result (List CoreWorkQueueEntry)
entries_of_rows [] = ok []
entries_of_rows (r ∷ rs) = elim (entry_of_row r) [
  | err x ↦ err x
  | ok e ↦ elim (entries_of_rows rs) [ err x ↦ err x | ok es ↦ ok (e ∷ es) ]
]

-- UPDATE … FROM claimable … RETURNING.
unfoldable pub claim_chosen : String → String → ℕ → List Row → Db → Db × List Row
claim_chosen account worker now chosen db = (
  record db { rows = update_where (is_chosen account chosen) (claim_row worker now) db.rows },
  map (claim_row worker now) (select_where (is_chosen account chosen) db.rows),
)

unfoldable pub claim_core_work_for_account :
    String → String → (ℕ → Bool) → ℕ → Db → Db × Result (Option CoreWorkQueueEntry)
unfolding claim_chosen claimable
claim_core_work_for_account account worker skip now db =
    let (db', returned) = claim_chosen account worker now (claimable account skip now db) db in
    (db', entry_of_first returned)

abbrev pub is_due_of_type : String → CoreWorkType → ℕ → (ℕ → Bool) → Row → Bool
is_due_of_type account work_type now skip r =
    same_type r.work_type work_type && is_due account now skip r

abbrev pub batch_before : Row → Row → Bool
batch_before a b = keys_before (a.available_at ∷ a.id ∷ []) (b.available_at ∷ b.id ∷ [])

unfoldable pub claimable_batch : String → CoreWorkType → ℕ → (ℕ → Bool) → ℕ → Db → List Row
claimable_batch account work_type limit skip now db =
    take limit
      (order_by batch_before (select_where (is_due_of_type account work_type now skip) db.rows))

unfoldable pub claim_core_work_batch_for_account :
    String → String → CoreWorkType → ℕ → (ℕ → Bool) → ℕ → Db → Db × Result (List CoreWorkQueueEntry)
unfolding claim_chosen claimable_batch
claim_core_work_batch_for_account account worker work_type limit skip now db =
    let (db', returned) =
      claim_chosen account worker now (claimable_batch account work_type limit skip now db) db in
    (db', entries_of_rows returned)
