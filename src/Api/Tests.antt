-- ===== src/Api/Tests.antt =====
-- Requests to the handlers on a small database, and the theorems at those requests.
use spin_the_wheel.Prelude.{
  ◌≢◌, arith, ap, List, find, length, get_elem?, ℕ, ◌≡◌, refl, true, false, none, some, [], ◌∷◌,
  Bytes, same, text, sort_by, replicate, ◌++◌, ◌==◌,
}
use spin_the_wheel.Utf8.{truncate}
use spin_the_wheel.Uid.{
  parse, string, is_zero, has_dashes, hex_decode, hex_encode, hex_digit, from_hex,
}
use spin_the_wheel.Store.Tables.{WheelRow, UserRow, SessionRow, SegmentRow}
use spin_the_wheel.Store.Monad.{ok, failed, World, new_uid, exec}
use spin_the_wheel.Store.Segments.{
  Segment, to_segment, is_public, segments_of, list_segments, public_view, get_public_wheel,
}
use spin_the_wheel.Store.Accounts.{to_user, User, null_uuid}
use spin_the_wheel.Store.Spins.{is_recent_spin, count_spins_since, insert_spin}
use spin_the_wheel.Store.Audit.{audit}
use spin_the_wheel.Api.Reply.{
  answer, forbidden, refusal, hash_ip, audit_ip, reply, refused, Request, internal_reply,
}
use spin_the_wheel.Api.Gate.{
  post, WebRequest, Route, retry_seconds, rate_limit, is_same_origin, same_origin_write, resolve,
  has_token, csrf, authed,
}
use spin_the_wheel.Api.Gate.Decided.{Decided, authed-Decided}
use spin_the_wheel.Store.Sessions.{is_live, live_session, lookup_session, touch_session}
use spin_the_wheel.Api.Validate.{
  is_hex, matches_color, lower_byte, valid_color, IsColor, valid_color-IsColor,
}
use spin_the_wheel.Store.Wheels.{is_owned, soft_delete_wheel}
use spin_the_wheel.Api.Wheels.{delete_wheel}
use spin_the_wheel.Api.Wheels.Deleted.{delete_wheel-withdraws}
use spin_the_wheel.Api.Spin.{
  image_url, SpinResult, spin_result, secure_index, draw, limited_draw, spin_wheel, spin,
}
use spin_the_wheel.Api.Spin.Answered.{spin_answers}
use spin_the_wheel.Api.Spin.Recorded.{IsSpun, spin-IsSpun}
use spin_the_wheel.Api.Spin.Refused.{db-spin-refused}

running : Unit {0}
unfolding is_owned soft_delete_wheel delete_wheel is_hex matches_color lower_byte valid_color
    truncate parse string is_zero has_dashes hex_decode hex_encode hex_digit from_hex new_uid exec
    is_public segments_of list_segments public_view get_public_wheel null_uuid is_recent_spin
    count_spins_since insert_spin audit image_url secure_index hash_ip audit_ip retry_seconds
    rate_limit is_same_origin same_origin_write resolve has_token csrf authed is_live live_session
    lookup_session touch_session draw limited_draw spin_wheel spin same sort_by
running = tt

abbrev wheel_id : Bytes
wheel_id = replicate 15 0 ++ 7 ∷ []

abbrev segment : ℕ → Bytes → SegmentRow
segment i label = record {
  id = replicate 15 1 ++ i ∷ [];
  wheel_id = wheel_id;
  position = i;
  label = label;
  color = text "#00ff00";
  image_id = none;
}

abbrev wheel_row : WheelRow
wheel_row = record {
  id = wheel_id;
  owner_id = text "ann";
  title = text "Draw";
  is_active = true;
  created_at = 0;
  updated_at = 0;
  deleted_at = none;
}

abbrev start : World
start = record {
  db = record {
    users = [];
    allowed_emails = [];
    oauth_states = [];
    sessions = [];
    images = [];
    wheels = wheel_row ∷ [];
    segments = segment 0 (text "no") ∷ segment 1 (text "yes") ∷ [];
    spins = [];
    audit_log = [];
  };
  now = 10;
  uuids = λ n. replicate 15 2 ++ n ∷ [];
  drawn = 0;
  faults = λ _. false;
  statements = 0;
}

abbrev request : Bytes → Request
request path = record {
  path_id = path;
  client_ip = text "10.0.0.1";
  user_agent = text "test";
  request_id = text "r";
}

abbrev wheel_path : Bytes
wheel_path = text "00000000-0000-0000-0000-000000000007"

abbrev won : SpinResult
won = record {
  spin_id = text "02020202-0202-0202-0202-020202020200";
  index = 1;
  label = text "yes";
  image_url = [];
}

won_yes : (spin (λ n. some 1) (λ b. b) [] (request wheel_path) start).0 ≡ reply 200 won
unfolding running
won_yes = refl

spin-IsSpun_example :
    IsSpun
      (λ n. some 1)
      (λ b. b)
      []
      (request wheel_path)
      start
      won
      (spin (λ n. some 1) (λ b. b) [] (request wheel_path) start).1
spin-IsSpun_example =
    spin-IsSpun (λ n. some 1) (λ b. b) [] (request wheel_path) start 200 won won_yes

-- A statement fails: the fourth, the insertion of the spin.
abbrev failing : World
failing = record start { faults = λ n. n == 3 }

not_recorded :
    (spin (λ n. some 1) (λ b. b) [] (request wheel_path) failing).0
    ≡ refused (internal_reply failed)
unfolding running
not_recorded = refl

db-spin-refused_example :
    (spin (λ n. some 1) (λ b. b) [] (request wheel_path) failing).1.db ≡ failing.db
db-spin-refused_example =
    db-spin-refused (λ n. some 1) (λ b. b) [] (request wheel_path) failing (internal_reply failed)
      not_recorded

-- A write behind the chain of the authenticated routes, with the session of `ann`.
abbrev ann : UserRow
ann = record {
  id = text "ann";
  google_sub = text "1";
  email = text "ann@x.fr";
  display_name = text "Ann";
  created_at = 0;
}

abbrev ann_session : SessionRow
ann_session = record {
  id = text "s";
  user_id = text "ann";
  token_hash = text "cookie";
  csrf_token = text "token";
  ip = [];
  user_agent = [];
  last_seen_at = 0;
  expires_at = 1000;
  revoked_at = none;
}

abbrev signed_in : World
signed_in = record start { db = record start.db { users = ann ∷ []; sessions = ann_session ∷ [] } }

abbrev write : Bytes → WebRequest
write token = record {
  method = post;
  sec_fetch_site = text "same-origin";
  origin = [];
  cookie = text "cookie";
  csrf_header = token;
  request = request [];
}

abbrev echo : Route Bytes
echo q none = answer 200 []
echo q (some (s, u)) = answer 200 u.email

written :
    (authed same
      (text "https://x.fr")
      (λ b. b)
      (true, 0)
      echo
      (write (text "token"))
      none
      signed_in).0
    ≡ reply 200 (text "ann@x.fr")
unfolding running
written = refl

forged :
    (authed same
      (text "https://x.fr")
      (λ b. b)
      (true, 0)
      echo
      (write (text "guess"))
      none
      signed_in).0
    ≡ refused (refusal 403 forbidden)
unfolding running
forged = refl

authed-Decided_example :
    Decided same
      (text "https://x.fr")
      (λ b. b)
      (true, 0)
      echo
      (write (text "token"))
      signed_in
      (authed same
        (text "https://x.fr")
        (λ b. b)
        (true, 0)
        echo
        (write (text "token"))
        none
        signed_in)
authed-Decided_example =
    authed-Decided same (text "https://x.fr") (λ b. b) (true, 0) echo (write (text "token"))
      signed_in

cyan : valid_color (λ s. s) (text "#00FFFF") ≡ some (text "#00ffff")
unfolding running
cyan = refl

no_name : valid_color (λ s. s) (text "rgb(0,0,0)") ≡ none
unfolding running
no_name = refl

valid_color-IsColor_example : IsColor (text "#00ffff")
valid_color-IsColor_example = valid_color-IsColor (λ s. s) (text "#00FFFF") (text "#00ffff") cyan

abbrev owner : User
owner = record (to_user ann) { id = text "ann" }

removed : (delete_wheel (λ b. b) [] owner (request wheel_path) start).0 ≡ reply 200 tt
unfolding running
removed = refl

path_parsed : parse wheel_path ≡ some wheel_id
unfolding running
path_parsed = refl

delete_wheel-withdraws_example :
    (get_public_wheel wheel_id (delete_wheel (λ b. b) [] owner (request wheel_path) start).1).0
    ≢ ok (public_view wheel_row [])
unfolding same
delete_wheel-withdraws_example =
    delete_wheel-withdraws (λ b. b) [] owner (request wheel_path) start
      (delete_wheel (λ b. b) [] owner (request wheel_path) start).1 wheel_id
      (public_view wheel_row []) 200 path_parsed (omega arith) removed refl

abbrev shown : List Segment
shown = to_segment (segment 0 (text "no")) ∷ to_segment (segment 1 (text "yes")) ∷ []

is_found : find (is_public wheel_id) start.db.wheels ≡ some wheel_row
unfolding running
is_found = refl

two_segments : segments_of wheel_id start.db ≡ shown
unfolding running
two_segments = refl

spin_answers_example :
    (spin (λ n. some 1) (λ b. b) [] (request wheel_path) start).0
    ≡ reply 200 (spin_result 1 (to_segment (segment 1 (text "yes"))) (replicate 15 2 ++ 0 ∷ []))
spin_answers_example =
    spin_answers (λ n. some 1) (λ b. b) [] (request wheel_path) wheel_id wheel_row 1
      (to_segment (segment 1 (text "yes"))) start (λ _. refl) path_parsed is_found
      (omega (arith, ap length two_segments)) (omega arith) refl
      (ap (λ segs. get_elem? segs 1) two_segments)
