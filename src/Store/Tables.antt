-- ===== src/Store/Tables.antt =====
-- The tables of backend/internal/store/migrations/0001_init.sql, as the queries read and write
-- them; columns that no query reads (last_login_at, details and users.updated_at) are left out. A time
-- is a number of milliseconds. A nullable column is an `Option`.
use spin_the_wheel.Prelude.{ℕ, Bool, Option, none, some, List, Bytes}

pub record UserRow : Type 0 where
  pub id : Bytes
  pub google_sub : Bytes
  pub email : Bytes
  pub display_name : Bytes
  pub created_at : ℕ

pub record AllowedRow : Type 0 where
  pub id : Bytes
  pub email : Bytes
  pub note : Bytes
  pub added_by : Option Bytes
  pub created_at : ℕ

pub record OauthRow : Type 0 where
  pub id : Bytes
  pub state_hash : Bytes
  pub code_verifier : Bytes
  pub expires_at : ℕ
  pub consumed_at : Option ℕ

pub record SessionRow : Type 0 where
  pub id : Bytes
  pub user_id : Bytes
  pub token_hash : Bytes
  pub csrf_token : Bytes
  pub ip : Bytes
  pub user_agent : Bytes
  pub last_seen_at : ℕ
  pub expires_at : ℕ
  pub revoked_at : Option ℕ

pub record ImageRow : Type 0 where
  pub id : Bytes
  pub owner_id : Bytes
  pub sha256 : Bytes
  pub byte_size : ℕ
  pub width : ℕ
  pub height : ℕ
  pub created_at : ℕ

pub record WheelRow : Type 0 where
  pub id : Bytes
  pub owner_id : Bytes
  pub title : Bytes
  pub is_active : Bool
  pub created_at : ℕ
  pub updated_at : ℕ
  pub deleted_at : Option ℕ

pub record SegmentRow : Type 0 where
  pub id : Bytes
  pub wheel_id : Bytes
  pub position : ℕ
  pub label : Bytes
  pub color : Bytes
  pub image_id : Option Bytes

pub record SpinRow : Type 0 where
  pub id : Bytes
  pub wheel_id : Bytes
  pub segment_id : Option Bytes
  pub segment_index : ℕ
  pub segment_label : Bytes
  pub ip_hash : Option Bytes
  pub user_agent : Bytes
  pub created_at : ℕ

-- The actions of backend/internal/store/audit.go.
pub data Action : Type 0 where
  login_started login_succeeded login_denied login_failed logout : Action
  wheel_created wheel_updated wheel_deleted segments_saved : Action
  image_uploaded spun allowed_email_added allowed_email_removed : Action
  rate_limited csrf_blocked forbidden : Action

pub record AuditRow : Type 0 where
  pub id : Bytes
  pub actor_id : Option Bytes
  pub action : Action
  pub entity_type : Bytes
  pub entity_id : Option Bytes
  pub ip : Bytes
  pub user_agent : Bytes
  pub request_id : Bytes
  pub created_at : ℕ

pub record Db : Type 0 where
  pub users : List UserRow
  pub allowed_emails : List AllowedRow
  pub oauth_states : List OauthRow
  pub sessions : List SessionRow
  pub images : List ImageRow
  pub wheels : List WheelRow
  pub segments : List SegmentRow
  pub spins : List SpinRow
  pub audit_log : List AuditRow

-- IS NULL
abbrev pub is_null {ℓ} : {A : Type ℓ} → Option A → Bool
is_null none = Bool.true
is_null (some a) = Bool.false
