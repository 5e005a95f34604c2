-- ===== src/Router/Tests.antt =====
-- Requests of a small service, and the theorems of the router at them.
use spin_the_wheel.Prelude.{
  ℕ, ◌≡◌, ◌⊎◌, refl, true, false, Option, none, some, [], ◌∷◌, Bytes, text, same, if◌then◌else◌,
}
use spin_the_wheel.Imgproc as Imgproc
use spin_the_wheel.Config.{Config}
use spin_the_wheel.Auth.Google.{Transport}
use spin_the_wheel.Api.Gate.{authed, same_origin_write, is_same_origin, Method, post}
use spin_the_wheel.Images.Disk.{Site}
use spin_the_wheel.Images.Upload.{over_limit}
use spin_the_wheel.Web.{
  Call, returned, panicked, Serve, chain, chain_loop, Sent, status_header, status_write, raw_header,
  raw_write,
}
use spin_the_wheel.Web.Json.{Codec, as_json, error, json}
use spin_the_wheel.Web.Outer.{request_id, recover, access_log, no_store, security_headers, max_body}
use spin_the_wheel.Web.Outer.Recovered.{Answered, recover-answers}
use spin_the_wheel.Web.Chained.{chain-nested}
use spin_the_wheel.Web.ClientIp.{NetLibrary, Peer, client_ip, client_ip_of_peer}
use spin_the_wheel.Router.Table.{wheel_new, split_path, matches_path, matches, find_endpoint}
use spin_the_wheel.Router.Endpoints.{App, signed}
use spin_the_wheel.Router.Serving.{endpoint_serve, serve, unanswered, route, moved_to}
use spin_the_wheel.Router.Authority.{begun, IsGuarded}
use spin_the_wheel.Router.Guarded.{serve-IsGuarded}
use spin_the_wheel.Router.Moved.{IsMoved}
use spin_the_wheel.Router.Shielded.{Shields, endpoint_serve-Shields}

abbrev coder : Codec
coder = record {
  encode = λ a. text "{}";
  decimal = λ n. n ∷ [];
  trim = λ b. b;
  before_semicolon = λ b. b;
}

-- A handler that does nothing.
abbrev silent : Serve
silent q x s = record { exit = returned; exchange = x; site = s }

abbrev broken : Serve
broken q x s = record { exit = panicked; exchange = x; site = s }

abbrev config : Config
config = record {
  env = text "production";
  log_level = [];
  http_addr = [];
  base_url = record { scheme = text "https"; host = text "x.fr"; origin = text "https://x.fr" };
  database_url = [];
  google_client_id = [];
  google_client_secret = [];
  oauth_redirect_url = [];
  bootstrap_emails = [];
  frame_ancestors = [];
  cookie_secure = true;
  cookie_name = text "session";
  trust_proxy = false;
  ip_hash_salt = text "salt";
  image_dir = text "/d";
  frontend_dir = text "/f";
  session_hours = 1;
  max_image_bytes = 100;
}

abbrev images : Imgproc.Codec
images = record {
  Picture = ℕ;
  decode_config = λ b. none;
  decode = λ b. none;
  width_of = λ p. p;
  height_of = λ p. p;
  scale = λ p w h. p;
  encode_png = λ p. none;
  sha256_sum = λ b. b;
}

abbrev transport : Transport
transport = record {
  post = λ form. none;
  get = λ token. none;
  access_token = λ body. none;
  profile = λ body. none;
  encode_query = λ form. [];
  sha256 = λ b. b;
  base64 = λ b. b;
}

abbrev service : App
service = record {
  config = config;
  codec = coder;
  images = images;
  transport = transport;
  equal_fold = same;
  lower = λ b. b;
  trim = λ b. b;
  rand_int = λ n. some 0;
  random = λ n. none;
  verdict = (true, 0);
  cookie_text = λ c. c.value;
  title_of = λ b. none;
  patch_of = λ b. none;
  segments_of = λ b. none;
  allowed_of = λ b. none;
  form_of = λ b. over_limit;
  link = λ b. b;
  clean = λ b. if same b (text "/api//wheels") then text "/api/wheels" else b;
  moved_link = λ b. b;
  page = λ name. silent;
  files = silent;
}

abbrev empty_site : Site
empty_site = record {
  world = record {
    db = record {
      users = [];
      allowed_emails = [];
      sessions = [];
      oauth_states = [];
      images = [];
      wheels = [];
      segments = [];
      spins = [];
      audit_log = [];
    };
    now = 0;
    uuids = λ n. n ∷ [];
    drawn = 0;
    faults = λ n. false;
    statements = 0;
  };
  files = λ p. none;
  faults = λ n. false;
  partial = λ n. none;
  operations = 0;
}

-- A request for a new wheel, from another site and without a session.
abbrev request : Method → Bytes → Call
request method path = record {
  web = record {
    method = method;
    sec_fetch_site = text "cross-site";
    origin = text "https://y.fr";
    cookie = [];
    csrf_header = [];
    request = record { path_id = []; client_ip = text "1"; user_agent = []; request_id = [] };
  };
  path = path;
  content_type = [];
  state_cookie = [];
  error = [];
  code = [];
  state = [];
  body = [];
  body_limit = none;
}

abbrev forged : Call
forged = request post (text "/api/wheels")

found : find_endpoint post (text "/api/wheels") ≡ some wheel_new
unfolding find_endpoint matches matches_path split_path same
found = refl

serve-IsGuarded_example :
    IsMoved service forged empty_site (serve service forged unanswered empty_site)
    ⊎ IsGuarded service forged empty_site (serve service forged unanswered empty_site)
unfolding find_endpoint matches matches_path split_path same
serve-IsGuarded_example = serve-IsGuarded service forged empty_site refl (λ e. cc)

unfoldable status_of : Option Sent → Option ℕ
status_of none = none
status_of (some s) = some s.status

answered : status_of (serve service forged unanswered empty_site).exchange.sent ≡ some 403
unfolding status_of serve route moved_to find_endpoint matches matches_path split_path
    endpoint_serve signed authed same_origin_write is_same_origin chain chain_loop request_id
    recover access_log security_headers no_store max_body as_json error json status_header
    status_write raw_header raw_write same
answered = refl

-- A path with two slashes is redirected, whatever its method.
redirected :
    status_of
      (serve service (request post (text "/api//wheels")) unanswered empty_site).exchange.sent
    ≡ some 301
unfolding status_of serve route moved_to find_endpoint matches matches_path split_path
    endpoint_serve signed authed same_origin_write is_same_origin chain chain_loop request_id
    recover access_log security_headers no_store max_body as_json error json status_header
    status_write raw_header raw_write same
redirected = refl

endpoint_serve-Shields_example :
    Shields service (endpoint_serve service wheel_new forged (begun []) empty_site)
endpoint_serve-Shields_example = endpoint_serve-Shields service wheel_new forged [] empty_site refl

chain-nested_example : chain silent (request_id ∷ no_store ∷ []) ≡ request_id (no_store silent)
chain-nested_example = chain-nested (request_id ∷ no_store ∷ []) silent

recover-answers_example :
    Answered forged panicked unanswered
      (recover coder (access_log broken) forged unanswered empty_site)
recover-answers_example = recover-answers coder broken forged unanswered empty_site

abbrev net : NetLibrary
net = record { trim = λ b. b; parse_ip = λ b. some b; split_host = λ b. none }

abbrev peer : Bytes → Peer
peer claimed = record { real_ip = claimed; forwarded_for = []; remote_addr = text "10.0.0.1" }

client_ip_of_peer_example :
    (client_ip net false (peer (text "1.1.1.1")) ≡ client_ip net false (peer []))
    × ((client_ip net true (peer (text "1.1.1.1")) ≡ client_ip net false (peer (text "1.1.1.1")))
        ⊎ ((given : Bytes) × (net.parse_ip given
              ≡ some (client_ip net true (peer (text "1.1.1.1"))))))
client_ip_of_peer_example = client_ip_of_peer net (peer (text "1.1.1.1")) (peer []) refl
