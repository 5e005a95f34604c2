-- ===== src/Api/Gate.antt =====
-- The middleware in front of the authenticated routes: `SameOriginWrite` and `RateLimit` of
-- backend/internal/httpx, `Resolve`, `RequireUser` and `CSRF` of backend/internal/auth/handlers.go,
-- and their chain `authed` of backend/internal/api/router.go. The middleware that works on
-- any handler stands in Web. The cookie that `Resolve` clears where its session is not found is
-- left out: only the status and the tables are kept. `strings.EqualFold` and SHA-256 are parameters, and the verdict of the limiter is an argument.
pub mod Passed
pub mod Decided
use spin_the_wheel.Prelude.{
  ℕ, ◌/◌, ltb, Bool, true, false, not, ◌&&◌, ◌||◌, Option, none, some, Bytes, same, text, [], ◌∷◌,
  if◌then◌else◌,
}
use spin_the_wheel.Uid.{nil_uuid}
use spin_the_wheel.Store.Tables.{csrf_blocked}
use spin_the_wheel.Store.Monad.{not_found, failed, Result, ok, err, World}
use spin_the_wheel.Store.Accounts.{User}
use spin_the_wheel.Store.Sessions.{Session, lookup_session, touch_session}
use spin_the_wheel.Store.Audit.{AuditEntry, audit}
use spin_the_wheel.Api.Reply.{
  unauthorized, forbidden, rate_limited, internal, Refusal, refusal, Response, refused, Handler,
  Request, refuse, audited,
}

pub data Method : Type 0 where
  get head options post put patch delete : Method

-- `isSafeMethod`
abbrev pub is_safe : Method → Bool
is_safe get = true
is_safe head = true
is_safe options = true
is_safe _ = false

-- A request with the headers that the middleware reads, empty where they are absent.
pub record WebRequest : Type 0 where
  pub method : Method
  pub sec_fetch_site : Bytes
  pub origin : Bytes
  pub cookie : Bytes
  pub csrf_header : Bytes
  pub request : Request

-- The session and the account of the context, where there are any.
abbrev pub Context : Type 0
Context = Option (Session × User)

abbrev pub Route : Type 0 → Type 0
Route A = WebRequest → Context → Handler A

-- Retry-After, in whole seconds and one at least.
unfoldable pub retry_seconds : ℕ → ℕ
retry_seconds wait = let secs = wait / 1_000_000_000 in if ltb secs 1 then 1 else secs

-- `RateLimit`, for a verdict of `Allow`.
unfoldable pub rate_limit : {A : Type 0} → Bool × ℕ → Route A → Route A
unfolding retry_seconds
rate_limit (admitted, wait) next q c =
    if admitted
    then next q c
    else refuse
        (record { status = 429; code = rate_limited; retry_after = some (retry_seconds wait) })

-- `SameOriginWrite`
unfoldable pub is_same_origin : (Bytes → Bytes → Bool) → Bytes → WebRequest → Bool
is_same_origin equal_fold expected q =
    if same q.sec_fetch_site (text "same-origin") || same q.sec_fetch_site (text "none")
    then true
    else if same q.sec_fetch_site (text "cross-site") || same q.sec_fetch_site (text "same-site")
    then false
    else not (same q.origin []) && equal_fold q.origin expected

unfoldable pub same_origin_write : {A : Type 0} → (Bytes → Bytes → Bool) → Bytes → Route A → Route A
unfolding is_same_origin
same_origin_write equal_fold expected next q c =
    if is_safe q.method
    then next q c
    else if is_same_origin equal_fold expected q
    then next q c
    else refuse (refusal 403 forbidden)

-- The rest of `Resolve` behind the lookup. A failed `TouchSession` is only logged.
abbrev pub resolved : {A : Type 0} → Result (Session × User) → Route A → Route A
resolved (ok (s, u)) next q c w = next q (some (s, u)) (touch_session s.id w).1
resolved (err not_found) next q c w = next q c w
resolved (err failed) next q c w = (refused (refusal 503 internal), w)

-- `Resolve`
unfoldable pub resolve : {A : Type 0} → (Bytes → Bytes) → Route A → Route A
resolve sha256 next q c w =
    if same q.cookie []
    then next q c w
    else resolved (lookup_session (sha256 q.cookie) w).0 next q c
        (lookup_session (sha256 q.cookie) w).1

-- `RequireUser`
abbrev pub require_user : {A : Type 0} → Route A → Route A
require_user next q none = refuse (refusal 401 unauthorized)
require_user next q (some c) = next q (some c)

-- The entry of a blocked request; the details are left out.
abbrev pub blocked : WebRequest → User → AuditEntry
blocked q u = record {
  actor_id = u.id;
  action = csrf_blocked;
  entity_type = [];
  entity_id = nil_uuid;
  ip = q.request.client_ip;
  user_agent = q.request.user_agent;
  request_id = q.request.request_id;
}

-- The comparison of the token with that of the session.
unfoldable pub has_token : WebRequest → Session → Bool
has_token q s = not (same q.csrf_header []) && same q.csrf_header s.csrf_token

abbrev pub checked : {A : Type 0} → Route A → Route A
checked next q none = refuse (refusal 401 unauthorized)
checked next q (some (s, u)) =
    if has_token q s
    then next q (some (s, u))
    else audited (blocked q u) (refuse (refusal 403 forbidden))

-- `CSRF`
unfoldable pub csrf : {A : Type 0} → Route A → Route A
unfolding has_token
csrf next q c = if is_safe q.method then next q c else checked next q c

-- `authed`: the order of the chain.
unfoldable pub authed :
    {A : Type 0} → (Bytes → Bytes → Bool) → Bytes → (Bytes → Bytes) → Bool × ℕ → Route A → Route A
unfolding same_origin_write rate_limit resolve csrf
authed equal_fold expected sha256 verdict next =
    same_origin_write equal_fold expected
      (rate_limit verdict (resolve sha256 (require_user (csrf next))))
