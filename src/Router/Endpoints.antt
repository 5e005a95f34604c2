-- ===== src/Router/Endpoints.antt =====
-- What each route of `NewRouter` serves: its handler behind its chain of middleware, and the whole
-- router. Go's libraries, the provider, the clock of the limiters (a verdict) and the random bytes of
-- a request are in the record `App`; the files of the front are opaque handlers. `clean` is the
-- `cleanPath` of the mux.
use spin_the_wheel.Prelude.{
  ℕ, ◌+◌, ◌*◌, Bool, true, false, Option, none, some, List, [], ◌∷◌, ◌++◌, Bytes, text,
}
use spin_the_wheel.Imgproc as Imgproc
use spin_the_wheel.Config.{Config}
use spin_the_wheel.Store.Accounts.{User}
use spin_the_wheel.Api.Reply.{
  internal, Response, reply, refused, Handler, Request, answer, refuse, refusal,
}
use spin_the_wheel.Api.Gate.{
  Route, rate_limit, same_origin_write, resolve, require_user, csrf, authed,
}
use spin_the_wheel.Api.Wheels.Writing.{PatchInput, SegmentInput, AllowedInput, Limits}
use spin_the_wheel.Auth.Google.{Transport, GoogleClient}
use spin_the_wheel.Auth.Login.{Cookie, AuthConfig, log_out}
use spin_the_wheel.Images.Disk.{Site}
use spin_the_wheel.Images.Upload.{Form, ImageConfig, ImageInfo, upload_image}
use spin_the_wheel.Web.{Exchange, Call, returned, Serve, Middleware, chain}
use spin_the_wheel.Web.Json.{
  Codec, recorder, json, respond, refused_with, as_json, Decoder, readable,
}
use spin_the_wheel.Web.Outer.{SecurityOptions, security_headers, max_body, no_store}

pub record App : Type 1 where
  pub config : Config
  pub codec : Codec
  pub images : Imgproc.Codec
  pub transport : Transport
  pub equal_fold : Bytes → Bytes → Bool
  pub lower : Bytes → Bytes
  pub trim : Bytes → Bytes
  pub rand_int : ℕ → Option ℕ
  pub random : ℕ → Option Bytes
  pub verdict : Bool × ℕ
  pub cookie_text : Cookie → Bytes
  pub title_of : Decoder Bytes
  pub patch_of : Decoder PatchInput
  pub segments_of : Decoder (List SegmentInput)
  pub allowed_of : Decoder AllowedInput
  pub form_of : Bytes × Bool → Form
  pub link : Bytes → Bytes
  pub clean : Bytes → Bytes
  pub moved_link : Bytes → Bytes
  pub page : Bytes → Serve
  pub files : Serve

-- The constants of `Load`.
abbrev pub max_json_body_bytes : ℕ
max_json_body_bytes = 262144

abbrev pub limits : Limits
limits = record { max_segments = 64; max_label_runes = 80; max_title_runes = 120 }

-- `cspBase`
abbrev pub csp_base : Bytes
csp_base =
    text
      "default-src 'none'; script-src 'self'; style-src 'self'; img-src 'self' data:; font-src 'self'; connect-src 'self'; form-action 'self'; base-uri 'none'; object-src 'none'"

-- strings.Join at spaces
unfoldable pub joined : List Bytes → Bytes
joined [] = []
joined (a ∷ []) = a
joined (a ∷ b ∷ bs) = a ++ (text " " ++ joined (b ∷ bs))

-- The part of `jsonBase` that works on any handler.
abbrev pub json_base : SecurityOptions → ℕ → List Middleware
json_base o limit = security_headers o ∷ no_store ∷ max_body limit ∷ []

-- The payload of `Logout`: {"ok": true}.
pub record Done : Type 0 where
  pub ok : Bool

abbrev pub done : Done
done = record { ok = true }

module _ (app : App) where
  abbrev pub app_options : SecurityOptions
  app_options = record {
    csp = csp_base ++ text "; frame-ancestors 'none'";
    frame_deny = true;
    hsts = app.config.cookie_secure;
    opener_policy = text "same-origin";
    resource_policy = text "same-origin";
  }

  abbrev pub embed_options : SecurityOptions
  embed_options = record {
    csp = csp_base ++ text "; frame-ancestors " ++ joined app.config.frame_ancestors;
    frame_deny = false;
    hsts = app.config.cookie_secure;
    opener_policy = [];
    resource_policy = [];
  }

  abbrev pub auth_config : AuthConfig
  auth_config = record {
    cookie_secure = app.config.cookie_secure;
    cookie_name = app.config.cookie_name;
    session_ttl = app.config.session_hours * 3600000;
  }

  abbrev pub client : GoogleClient
  client = record {
    client_id = app.config.google_client_id;
    client_secret = app.config.google_client_secret;
    redirect_url = app.config.oauth_redirect_url;
  }

  abbrev pub image_config : ImageConfig
  image_config = record {
    image_dir = app.config.image_dir;
    max_image_bytes = app.config.max_image_bytes;
    max_image_pixels = 2048;
    ip_hash_salt = app.config.ip_hash_salt;
  }

  abbrev pub origin : Bytes
  origin = app.config.base_url.origin

  -- A handler of the interface that runs for an account: `MustUser` panics without one, and that is the
  -- 500 of `Recover`.
  abbrev pub as_user : {A : Type 0} → (User → Request → Handler A) → Route A
  as_user h q none = refuse (refusal 500 internal)
  as_user h q (some (s, u)) = h u q.request

  -- `authed`, of a handler for an account.
  unfoldable pub signed : {A : Type 0} → (Call → User → Request → Handler A) → Serve
  unfolding authed as_json
  signed h =
      chain
        (λ q.
          as_json app.codec
            (authed app.equal_fold origin app.transport.sha256 app.verdict (as_user (h q))) q)
        (json_base app_options max_json_body_bytes)

  -- `public`, without the session.
  unfoldable pub anonymous : {A : Type 0} → (Request → Handler A) → Serve
  unfolding same_origin_write rate_limit as_json
  anonymous h =
      chain
        (as_json app.codec
          (same_origin_write app.equal_fold origin (rate_limit app.verdict λ q c. h q.request)))
        (json_base app_options max_json_body_bytes)

  abbrev pub cookies_set : List Cookie → Exchange → Exchange
  cookies_set [] x = x
  cookies_set (c ∷ cs) x =
      cookies_set cs
        (record x { headers = x.headers ++ (text "Set-Cookie", app.cookie_text c) ∷ [] })

  -- `Logout`, with the cookies that it sets before its body.
  abbrev pub end_route : Route (List Cookie)
  end_route q c w =
      let (cookies, w') = log_out app.transport client auth_config q.request q.cookie c w in
      (reply 200 cookies, w')

  abbrev pub ended : Bytes → Response (List Cookie) → Exchange → Exchange
  ended id (reply status cookies) x = json app.codec recorder status done (cookies_set cookies x)
  ended id (refused r) x = refused_with app.codec recorder id r x

  unfoldable pub end_serve : Serve
  unfolding authed
  end_serve =
      chain
        (λ q x s.
          let (response, w) =
            authed app.equal_fold origin app.transport.sha256 app.verdict end_route q.web none
              s.world in
          record {
            exit = returned;
            exchange = ended q.web.request.request_id response x;
            site = record s { world = w };
          })
        (json_base app_options max_json_body_bytes)

  -- The chain of an upload: the account first, since the limiter counts by it.
  unfoldable pub upload_gate : Route User
  unfolding same_origin_write resolve csrf rate_limit
  upload_gate = same_origin_write app.equal_fold origin (
      resolve app.transport.sha256
        (require_user (csrf (rate_limit app.verdict (as_user λ u q. answer 200 u)))))

  abbrev pub uploaded : Call → Response User → Site → Response ImageInfo × Site
  uploaded q (refused r) s = (refused r, s)
  uploaded q (reply status u) s =
      upload_image app.images app.transport.sha256 image_config u q.web.request
        (app.form_of (readable q)) s

  unfoldable pub upload_serve : Serve
  unfolding upload_gate
  upload_serve =
      chain
        (λ q x s.
          let (gate, w) = upload_gate q.web none s.world in
          let (response, s') = uploaded q gate (record s { world = w }) in
          record {
            exit = returned;
            exchange = respond app.codec recorder q.web.request.request_id response x;
            site = s';
          })
        (json_base app_options (app.config.max_image_bytes + 1048576))
