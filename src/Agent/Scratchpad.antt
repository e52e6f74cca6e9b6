-- ===== src/Agent/Scratchpad.antt =====
-- src/agent_harness/scratchpad_state.rs with the table agent_state (schema.sql): the scratchpads.
use Prim.Native.String.{String}
use text.Mathlib.Text.{◌==◌ as str_eq}
use mail_subsystem.Prelude.{ℕ, ◌+◌, ◌*◌, Bool, true, false, ◌&&◌, Option, none, some, ltb, min}
use mail_subsystem.Json.{Json}
use mail_subsystem.Sql.{upsert_where, delete_where, find_where}
use mail_subsystem.Agent.Runs.{StateRow, AgentDb, AgentState}

abbrev pub has_key : AgentState → String → StateRow → Bool
has_key s key r =
    str_eq r.account_id s.account_id && (str_eq r.agent_name s.agent_name && str_eq r.key key)

abbrev pub is_live : ℕ → Option ℕ → Bool
is_live now none = true
is_live now (some expires_at) = ltb now expires_at

abbrev pub value_of : Option StateRow → Option Json
value_of none = none
value_of (some r) = some r.value

unfoldable pub read_scratchpad : AgentState → String → ℕ → AgentDb → Option Json
read_scratchpad s key now db =
    value_of
      (find_where (λ (r : StateRow). has_key s key r && is_live now r.expires_at) db.scratchpads)

-- A time is microseconds, and the hours are capped so that their seconds fit 64 bits.
abbrev pub ttl_to_expiry : ℕ → Option ℕ → Option ℕ
ttl_to_expiry now none = none
ttl_to_expiry now (some hours) = some (now + min hours 2562047788015215 * 3600000000)

unfoldable pub write_scratchpad : AgentState → String → Json → Option ℕ → ℕ → AgentDb → AgentDb
write_scratchpad s key value ttl_hours now db =
    let expires_at = ttl_to_expiry now ttl_hours in
    record db {
      scratchpads =
          upsert_where (has_key s key)
            (λ (r : StateRow). record r {
              value = value;
              updated_at = now;
              expires_at = expires_at;
            })
            (record {
              account_id = s.account_id;
              agent_name = s.agent_name;
              key = key;
              value = value;
              updated_at = now;
              expires_at = expires_at;
            })
            db.scratchpads;
    }

abbrev pub has_expired : ℕ → Option ℕ → Bool
has_expired now none = false
has_expired now (some expires_at) = ltb expires_at now

unfoldable pub prune_expired_scratchpad : AgentState → ℕ → AgentDb → AgentDb
prune_expired_scratchpad s now db = record db {
  scratchpads =
      delete_where
        (λ (r : StateRow).
          str_eq r.account_id s.account_id
          && (str_eq r.agent_name s.agent_name && has_expired now r.expires_at))
        db.scratchpads;
}
