-- ===== src/Config.antt =====
-- The configuration: `Load` of backend/internal/config/config.go, over an environment. An unset
-- variable is an empty text, as `os.Getenv` has it, and every error is a missing result.
-- `strings.TrimSpace`, `strings.ToLower`, `strings.Fields`, `url.Parse` and `strconv.Atoi` are
-- parameters.
pub mod Emails
pub mod Safe
mod Tests
use spin_the_wheel.Prelude.{
  ℕ, ◌*◌, ◌>>=◌, Bool, true, false, not, ◌&&◌, ◌||◌, Option, none, some, List, [], ◌∷◌, ◌++◌, Bytes,
  text, same, any, all, between, leb, ltb, length, map, ◌==◌, if◌then◌else◌,
}
use spin_the_wheel.Api.Validate.Email.{is_letter, is_domain, matches_email}

-- What is read of a parsed URL; `origin` is its text without path, query and fragment.
pub record Url : Type 0 where
  pub scheme : Bytes
  pub host : Bytes
  pub origin : Bytes

-- A result of `strconv.Atoi`.
pub data Integer : Type 0 where
  natural negative : ℕ → Integer

pub record Library : Type 0 where
  pub trim : Bytes → Bytes
  pub trim_slashes : Bytes → Bytes
  pub lower : Bytes → Bytes
  pub split_commas : Bytes → List Bytes
  pub fields : Bytes → List Bytes
  pub parse_url : Bytes → Option Url
  pub atoi : Bytes → Option Integer

-- `Config`, without the constants; the session's time is in hours.
pub record Config : Type 0 where
  pub env : Bytes
  pub log_level : Bytes
  pub http_addr : Bytes
  pub base_url : Url
  pub database_url : Bytes
  pub google_client_id : Bytes
  pub google_client_secret : Bytes
  pub oauth_redirect_url : Bytes
  pub bootstrap_emails : List Bytes
  pub frame_ancestors : List Bytes
  pub cookie_secure : Bool
  pub cookie_name : Bytes
  pub trust_proxy : Bool
  pub ip_hash_salt : Bytes
  pub image_dir : Bytes
  pub frontend_dir : Bytes
  pub session_hours : ℕ
  pub max_image_bytes : ℕ

-- A check: an error where it fails.
abbrev pub ensure : Bool → Option (Unit {0})
ensure true = some tt
ensure false = none

abbrev pub required : Bytes → Option Bytes
required [] = none
required (b ∷ bs) = some (b ∷ bs)

unfoldable pub is_env : Bytes → Bool
is_env e = same e (text "production") || same e (text "development")

-- `strconv.ParseBool`
unfoldable pub parse_bool : Bytes → Option Bool
parse_bool v =
    if any (same v) (text "1" ∷ text "t" ∷ text "T" ∷ text "TRUE" ∷ text "true" ∷ text "True" ∷ [])
    then some true
    else if any (same v)
        (text "0" ∷ text "f" ∷ text "F" ∷ text "FALSE" ∷ text "false" ∷ text "False" ∷ [])
    then some false
    else none

-- An integer between two bounds.
unfoldable pub within : ℕ → ℕ → Integer → Option ℕ
within low high (negative n) = none
within low high (natural n) = if between low high n then some n else none

-- The rest of a text behind a prefix.
unfoldable pub behind : Bytes → Bytes → Option Bytes
behind [] s = some s
behind (p ∷ ps) [] = none
behind (p ∷ ps) (c ∷ cs) = if p == c then behind ps cs else none

-- (?::\d{1,5})?
unfoldable pub matches_port : Bytes → Bool
matches_port [] = true
matches_port (c ∷ cs) = (c == 0x3a) && (between 1 5 (length cs) && all (between 0x30 0x39) cs)

-- [A-Za-z0-9.\-]*(?::\d{1,5})?
unfoldable pub matches_rest : Bytes → Bool
unfolding is_domain matches_port
matches_rest [] = true
matches_rest (c ∷ cs) = (is_domain c && matches_rest cs) || matches_port (c ∷ cs)

-- [A-Za-z0-9], and that.
unfoldable pub matches_name : Bytes → Bool
unfolding is_letter matches_rest
matches_name [] = false
matches_name (c ∷ cs) = (is_letter c || between 0x30 0x39 c) && matches_rest cs

abbrev pub test_behind : Bytes → (Bytes → Bool) → Bytes → Bool
test_behind prefix test s = elim (behind prefix s) [ none ↦ false | some rest ↦ test rest ]

-- `frameAncestorRe`
unfoldable pub is_ancestor : Bytes → Bool
unfolding behind matches_name
is_ancestor f =
    same f (text "'self'")
    || test_behind (text "https://")
        (λ rest. matches_name rest || test_behind (text "*.") matches_name rest) f
    || test_behind (text "http://localhost") matches_port f
    || test_behind (text "http://127.0.0.1") matches_port f

-- `parseFrameAncestors`, before the origins are joined by spaces.
unfoldable pub frame_ancestors_of : List Bytes → Option (List Bytes)
unfolding is_ancestor
frame_ancestors_of [] = some (text "https://digipad.app" ∷ text "https://*.digipad.app" ∷ [])
frame_ancestors_of (f ∷ fs) =
    if all (λ g. not (same g (text "*") || same g (text "'*'")) && is_ancestor g) (f ∷ fs)
    then some (f ∷ fs)
    else none

-- `parseEmails`, on the parts of the list.
unfoldable pub emails_of : List Bytes → Option (List Bytes)
unfolding matches_email
emails_of [] = some []
emails_of (e ∷ es) = do
  rest ← emails_of es
  if same e []
      then some rest
      else if matches_email e && leb (length e) 254
      then some (e ∷ rest)
      else none

module _ (lib : Library) (getenv : Bytes → Bytes) where
  -- `env`
  unfoldable pub env_or : Bytes → Bytes → Bytes
  env_or key default = let v = lib.trim (getenv key) in if same v [] then default else v

  -- `envBool`, `envInt`
  unfoldable pub env_bool : Bytes → Bool → Option Bool
  unfolding parse_bool
  env_bool key default =
      let v = lib.trim (getenv key) in if same v [] then some default else parse_bool v

  unfoldable pub env_int : Bytes → ℕ → Option Integer
  env_int key default =
      let v = lib.trim (getenv key) in if same v [] then some (natural default) else lib.atoi v

  -- BASE_URL
  unfoldable pub base_url_of : Bytes → Option Url
  base_url_of raw = do
    given ← required (lib.trim_slashes raw)
    url ← lib.parse_url given
    _ ← ensure (same url.scheme (text "http") || same url.scheme (text "https"))
    _ ← ensure (not (same url.host []))
    some url

  abbrev cookie_name_of : Bool → Bytes
  cookie_name_of secure = if secure then text "__Host-sw_session" else text "sw_session"

  -- The database, the client of the provider, and the salt.
  unfoldable pub secrets_of : Option (Bytes × Bytes × Bytes × Bytes)
  secrets_of = do
    database ← required (getenv (text "DATABASE_URL"))
    client ← required (getenv (text "GOOGLE_CLIENT_ID"))
    secret ← required (getenv (text "GOOGLE_CLIENT_SECRET"))
    let salt = getenv (text "IP_HASH_SALT")
    _ ← ensure (leb 16 (length salt))
    some (database, client, secret, salt)

  -- COOKIE_SECURE and TRUST_PROXY, against the environment and the address.
  unfoldable pub cookies_of : Bytes → Url → Option (Bool × Bool)
  unfolding env_bool
  cookies_of env url = do
    secure ← env_bool (text "COOKIE_SECURE") true
    trust ← env_bool (text "TRUST_PROXY") true
    _ ← ensure (not (same env (text "production")) || secure)
    _ ← ensure (not secure || same url.scheme (text "https"))
    some (secure, trust)

  -- The hours of a session, and the bytes of an image.
  unfoldable pub bounds_of : Option (ℕ × ℕ)
  unfolding env_int within
  bounds_of = do
    ttl ← env_int (text "SESSION_TTL_HOURS") 168
    hours ← within 1 2160 ttl
    size ← env_int (text "MAX_IMAGE_BYTES") 2097152
    bytes ← within 16384 16777216 size
    some (hours, bytes)

  abbrev pub built_config :
      Url → Bytes × Bytes × Bytes × Bytes → Bool × Bool → List Bytes → List Bytes → ℕ × ℕ → Config
  built_config url secrets cookies emails ancestors bounds = record {
    env = env_or (text "APP_ENV") (text "production");
    log_level = env_or (text "LOG_LEVEL") (text "info");
    http_addr = env_or (text "HTTP_ADDR") (text ":8080");
    base_url = url;
    database_url = secrets.0;
    google_client_id = secrets.1;
    google_client_secret = secrets.2;
    oauth_redirect_url = url.origin ++ text "/auth/google/callback";
    bootstrap_emails = emails;
    frame_ancestors = ancestors;
    cookie_secure = cookies.0;
    cookie_name = cookie_name_of cookies.0;
    trust_proxy = cookies.1;
    ip_hash_salt = secrets.3;
    image_dir = env_or (text "IMAGE_DIR") (text "/data/images");
    frontend_dir = env_or (text "FRONTEND_DIR") (text "/srv/frontend");
    session_hours = bounds.0;
    max_image_bytes = bounds.1;
  }

  -- `Load`
  unfoldable pub load : Option Config
  load = do
    _ ← ensure (is_env (env_or (text "APP_ENV") (text "production")))
    url ← base_url_of (getenv (text "BASE_URL"))
    secrets ← secrets_of
    cookies ← cookies_of (env_or (text "APP_ENV") (text "production")) url
    emails ← emails_of (
        map (λ part. lib.lower (lib.trim part))
          (lib.split_commas (getenv (text "BOOTSTRAP_ADMIN_EMAILS"))))
    ancestors ← frame_ancestors_of (lib.fields (getenv (text "EMBED_FRAME_ANCESTORS")))
    bounds ← bounds_of
    some (built_config url secrets cookies emails ancestors bounds)
