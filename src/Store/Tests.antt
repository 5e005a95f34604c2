-- ===== src/Store/Tests.antt =====
-- A small database, runs of the actions on it, and the theorems at those runs.
use spin_the_wheel.Prelude.{
  ◌≡◌, ◌≢◌, refl, true, false, none, List, [], ◌∷◌, arith, Bytes, same, text,
}
use spin_the_wheel.Uid.{nil_uuid, is_zero}
use spin_the_wheel.Store.Tables.{WheelRow, Db, UserRow, SessionRow}
use spin_the_wheel.Store.Monad.{StoreError, not_found, ok, err, World, new_uid, exec, transaction}
use spin_the_wheel.Store.Wheels.{soft_delete_wheel, is_owned}
use spin_the_wheel.Store.Segments.{
  Segment, owns_image, checked_image, insert_one, insert_segments, replace_body, replace_segments,
}
use spin_the_wheel.Store.Segments.Replacing.{IsReplaced, replace_segments_atomic}
use spin_the_wheel.Store.Images.{is_shown}
use spin_the_wheel.Store.Accounts.{
  to_user, is_session_of, delete_allowed_body, delete_allowed_email,
}
use spin_the_wheel.Store.Sessions.{
  to_session, is_pending, consume_oauth_state, is_live, live_session, lookup_session,
  revoke_session, keeps_session, keeps_state, keeps_audit, purge_sessions, purge_states,
  purge_audits, purge_expired,
}
use spin_the_wheel.Store.Sessions.Closing.{consume_once, purge_expired-keeps_lookups}
use spin_the_wheel.Store.Sessions.Removal.{removed_email_locked_out}

running : Unit {0}
unfolding soft_delete_wheel is_shown new_uid exec transaction is_owned owns_image checked_image
    insert_one insert_segments replace_body replace_segments is_session_of delete_allowed_body
    delete_allowed_email is_pending consume_oauth_state is_live live_session lookup_session
    revoke_session keeps_session keeps_state keeps_audit purge_sessions purge_states purge_audits
    purge_expired is_zero same
running = tt

abbrev ann : UserRow
ann = record {
  id = text "ann";
  google_sub = text "1";
  email = text "ann@x.fr";
  display_name = text "Ann";
  created_at = 0;
}

abbrev bob : UserRow
bob = record {
  id = text "bob";
  google_sub = text "2";
  email = text "bob@x.fr";
  display_name = text "Bob";
  created_at = 0;
}

abbrev session : Bytes → Bytes → SessionRow
session token user = record {
  id = token;
  user_id = user;
  token_hash = token;
  csrf_token = text "csrf";
  ip = [];
  user_agent = [];
  last_seen_at = 0;
  expires_at = 1000;
  revoked_at = none;
}

abbrev draw_row : WheelRow
draw_row = record {
  id = text "w";
  owner_id = text "ann";
  title = text "Draw";
  is_active = true;
  created_at = 0;
  updated_at = 0;
  deleted_at = none;
}

abbrev tables : Db
tables = record {
  users = ann ∷ bob ∷ [];
  allowed_emails =
      record { id = text "a"; email = text "ann@x.fr"; note = []; added_by = none; created_at = 0 }
      ∷ record {
        id = text "b";
        email = text "bob@x.fr";
        note = [];
        added_by = none;
        created_at = 0;
      }
      ∷ [];
  oauth_states =
      record {
        id = text "o";
        state_hash = text "h";
        code_verifier = text "v";
        expires_at = 100;
        consumed_at = none;
      }
      ∷ [];
  sessions = session (text "s") (text "ann") ∷ session (text "t") (text "bob") ∷ [];
  images =
      record {
        id = text "i";
        owner_id = text "ann";
        sha256 = [];
        byte_size = 1;
        width = 1;
        height = 1;
        created_at = 0;
      }
      ∷ [];
  wheels = draw_row ∷ [];
  segments =
      record {
        id = text "old";
        wheel_id = text "w";
        position = 0;
        label = text "old";
        color = [];
        image_id = none;
      }
      ∷ record {
        id = text "z";
        wheel_id = text "other";
        position = 0;
        label = [];
        color = [];
        image_id = none;
      }
      ∷ [];
  spins = [];
  audit_log = [];
}

-- A world where no statement fails.
abbrev start : World
start = record {
  db = tables;
  now = 10;
  uuids = λ n. n ∷ [];
  drawn = 0;
  faults = λ _. false;
  statements = 0;
}

abbrev segment : Bytes → Bytes → Segment
segment label image = record {
  id = nil_uuid;
  position = 0;
  label = label;
  color = text "#ffffff";
  image_id = image;
}

abbrev wanted : List Segment
wanted = segment (text "one") (text "i") ∷ segment (text "two") nil_uuid ∷ []

replaced : (replace_segments (text "w") (text "ann") wanted start).0 ≡ ok tt
unfolding running
replaced = refl

-- Another account has neither the wheel nor the image.
not_replaced : (replace_segments (text "w") (text "bob") wanted start).0 ≡ err not_found
unfolding running
not_replaced = refl

replace_segments_atomic_example :
    ((x : StoreError)
      → (replace_segments (text "w") (text "ann") wanted start).0 ≡ err x
      → (replace_segments (text "w") (text "ann") wanted start).1.db ≡ start.db)
    × ((replace_segments (text "w") (text "ann") wanted start).0 ≡ ok tt
        → IsReplaced
            (text "w")
            (text "ann")
            wanted
            start.db
            (replace_segments (text "w") (text "ann") wanted start).1.db)
replace_segments_atomic_example = replace_segments_atomic (text "w") (text "ann") wanted start

consumed : (consume_oauth_state (text "h") start).0 ≡ ok (text "v")
unfolding running
consumed = refl

consume_once_example :
    (consume_oauth_state (text "h") (consume_oauth_state (text "h") start).1).0 ≢ ok (text "v")
unfolding running
consume_once_example =
    consume_once (text "h") start (consume_oauth_state (text "h") start).1 (text "v") (text "v")
      consumed refl (omega arith)

revoked : (revoke_session (text "s") start).0 ≡ ok tt
unfolding running
revoked = refl

purge_expired-keeps_lookups_example :
    live_session (text "s") 20 (purge_expired start).1.db.users (purge_expired start).1.db.sessions
    ≡ live_session (text "s") 20 start.db.users start.db.sessions
purge_expired-keeps_lookups_example = purge_expired-keeps_lookups (text "s") 20 start (omega arith)

removed : (delete_allowed_email (text "a") start).0 ≡ ok (text "ann@x.fr")
unfolding running
removed = refl

-- The session of the other account is still found.
bob_stays :
    (lookup_session (text "t") (delete_allowed_email (text "a") start).1).0
    ≡ ok (to_session (session (text "t") (text "bob")), to_user bob)
unfolding running
bob_stays = refl

removed_email_locked_out_example : (to_user bob).email ≢ text "ann@x.fr"
removed_email_locked_out_example =
    removed_email_locked_out (text "a") (text "ann@x.fr") (text "t") start
      (delete_allowed_email (text "a") start).1 (to_session (session (text "t") (text "bob")))
      (to_user bob) removed refl bob_stays

deleted : (soft_delete_wheel (text "w") (text "ann") start).0 ≡ ok tt
unfolding running
deleted = refl
