-- ===== src/Store/Audit.antt =====
-- The audit log: backend/internal/store/audit.go.
use spin_the_wheel.Prelude.{ℕ, Option, [], ◌∷◌, ◌++◌, Bytes}
use spin_the_wheel.Utf8.{truncate}
use spin_the_wheel.Store.Tables.{Action, AuditRow}
use spin_the_wheel.Store.Monad.{M, ◌>>=◌, new_uid, exec}
use spin_the_wheel.Store.Accounts.{null_uuid}

-- `AuditEntry`, without the details.
pub record AuditEntry : Type 0 where
  pub actor_id : Bytes
  pub action : Action
  pub entity_type : Bytes
  pub entity_id : Bytes
  pub ip : Bytes
  pub user_agent : Bytes
  pub request_id : Bytes

abbrev pub audit_row : Bytes → AuditEntry → Option Bytes → Option Bytes → ℕ → AuditRow
audit_row id e actor entity now = record {
  id = id;
  actor_id = actor;
  action = e.action;
  entity_type = e.entity_type;
  entity_id = entity;
  ip = e.ip;
  user_agent = truncate e.user_agent 512;
  request_id = e.request_id;
  created_at = now;
}

-- `Audit`
unfoldable pub audit : AuditEntry → M (Unit {0})
unfolding null_uuid
audit e = do
  id ← new_uid
  exec (λ now db. (
    tt,
    record db {
      audit_log =
          db.audit_log ++ audit_row id e (null_uuid e.actor_id) (null_uuid e.entity_id) now ∷ [];
    },
  ))
