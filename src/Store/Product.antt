-- ===== src/Store/Product.antt =====
-- The tables that the product is about, which neither the audit nor the clock of a session touches.
use spin_the_wheel.Prelude.{◌≡◌, refl, ◌∙◌, ap, Option, List, Bytes}
use spin_the_wheel.Store.Tables.{
  Db, UserRow, AllowedRow, OauthRow, ImageRow, WheelRow, SegmentRow, SpinRow,
}
use spin_the_wheel.Store.Monad.{M, World, or_not_found, new_uid, query}
use spin_the_wheel.Store.Runs.{bind-keeps, exec-keeps, db-query, world-or_not_found}
use spin_the_wheel.Store.Accounts.{User}
use spin_the_wheel.Store.Sessions.{Session, live_session, lookup_session, touch_session}
use spin_the_wheel.Store.Audit.{AuditEntry, audit}

pub record Product : Type 0 where
  pub users : List UserRow
  pub allowed_emails : List AllowedRow
  pub oauth_states : List OauthRow
  pub images : List ImageRow
  pub wheels : List WheelRow
  pub segments : List SegmentRow
  pub spins : List SpinRow

abbrev pub product : Db → Product
product db = record {
  users = db.users;
  allowed_emails = db.allowed_emails;
  oauth_states = db.oauth_states;
  images = db.images;
  wheels = db.wheels;
  segments = db.segments;
  spins = db.spins;
}

-- The product is that of another world.
abbrev pub IsKept : World → World → Type 0
IsKept w v = product v.db ≡ product w.db

pub product-audit : (e : AuditEntry) (w : World) → IsKept w (audit e w).1
unfolding audit new_uid
product-audit e w = exec-keeps (IsKept w) _ (new_uid w).1 refl refl

pub product-touch_session : (id : Bytes) (w : World) → IsKept w (touch_session id w).1
unfolding touch_session
product-touch_session id w = exec-keeps (IsKept w) _ w refl refl

pub product-lookup_session : (token : Bytes) (w : World) → IsKept w (lookup_session token w).1
unfolding lookup_session
product-lookup_session token w =
    let ask : M (Option (Session × User)) =
      query (λ now (db : Db). live_session token now db.users db.sessions) in
    bind-keeps (IsKept w) ask or_not_found w
      (ap product (db-query (λ now (db : Db). live_session token now db.users db.sessions) w))
      λ row v h. ap (λ (x : World). product x.db) (world-or_not_found row v) ∙ h
