-- ===== src/Router/Shielded.antt =====
-- Every answer that the code of backend/internal/api and of backend/internal/auth writes by itself bears the
-- headers that forbid a frame.
use mathlib.Core.Path.{subst}
use spin_the_wheel.Prelude.{
  ℕ, ◌+◌, ◌≡◌, refl, sym, Bool, true, false, Option, none, some, List, [], ◌∷◌, ◌++◌, Bytes, text,
  same,
}
use spin_the_wheel.Store.Accounts.{User}
use spin_the_wheel.Api.Reply.{Response, reply, refused, Handler, Request}
use spin_the_wheel.Api.Gate.{Route}
use spin_the_wheel.Auth.Login.{Cookie, Landing, Visit}
use spin_the_wheel.Images.Disk.{Site}
use spin_the_wheel.Web.{
  Headers, Sent, raw_header, raw_write, status_header, status_write, Exchange, Call, Turn, Serve,
  chain,
}
use spin_the_wheel.Web.Json.{recorder, error, json, as_json, set, respond}
use spin_the_wheel.Web.Outer.{SecurityOptions, security_headers, no_store}
use spin_the_wheel.Router.Table.{
  Endpoint, health, oauth_start, oauth_callback, profile, session_end, wheel_list, wheel_new,
  wheel_view, wheel_patch, wheel_delete, segments_put, spin_list, image_list, image_new,
  allowed_list, allowed_new, allowed_delete, public_wheel, public_spin, image_file, index_page,
  edit_page, accounts_page, embed_page, static_file,
}
use spin_the_wheel.Router.Endpoints.{
  App, Done, done, max_json_body_bytes, json_base, app_options, cookies_set, ended, end_serve,
  signed, anonymous, upload_serve,
}
use spin_the_wheel.Router.Handlers.{
  health_handler, see_other, started, called_back, landed, login_serve, start_serve, callback_serve,
  me_serve,
}
use spin_the_wheel.Router.Serving.{endpoint_serve, route}
use spin_the_wheel.Router.Authority.{begun, bounded, secured, chain-json_base}
use spin_the_wheel.Router.Framing.{
  IsFramed, get_header-append, set_header-IsFramed, json_headers-IsFramed, announced-IsFramed,
  secured-IsFramed,
}

-- What is sent has the headers.
abbrev pub IsShielded : Option Sent → Type 0
IsShielded sent = (r : Sent) × (sent ≡ some r) × IsFramed r.headers

-- The routes whose answer is a body of JSON or a redirection; the others are files.
abbrev pub is_answer : Endpoint → Bool
is_answer image_file = false
is_answer index_page = false
is_answer edit_page = false
is_answer accounts_page = false
is_answer embed_page = false
is_answer static_file = false
is_answer _ = true

chain-secured :
    (o : SecurityOptions) (h : Serve) (q : Call) (hs : Headers) (s : Site)
    → chain h (security_headers o ∷ no_store ∷ []) q (begun hs) s ≡ h q (begun (secured o hs)) s
unfolding chain security_headers no_store
chain-secured o h q hs s = refl

append-IsFramed : (hs ys : Headers) → IsFramed hs → IsFramed (hs ++ ys)
append-IsFramed hs ys f = record {
  no_frame = get_header-append _ _ hs ys (λ e. cc) f.no_frame;
  no_guess = get_header-append _ _ hs ys (λ e. cc) f.no_guess;
  own_policy = get_header-append _ _ hs ys (λ e. cc) f.own_policy;
}

module _ (app : App) where
  respond-IsShielded :
      {A : Type 0} (id : Bytes) (x : Response A) (hs : Headers)
      → IsFramed hs
      → IsShielded (respond app.codec recorder id x (begun hs)).sent
  unfolding error json status_header status_write raw_header raw_write
  respond-IsShielded id (reply status a) hs f = (_, refl, json_headers-IsFramed hs f)
  respond-IsShielded id (refused r) hs f =
      (_, refl, json_headers-IsFramed _ (announced-IsFramed app r.retry_after hs f))

  abbrev pub Shields : Turn → Type 0
  Shields t = IsShielded t.exchange.sent

  based :
      (limit : ℕ) (h : Serve) (q : Call) (hs : Headers) (s : Site)
      → Shields (h (bounded limit q) (begun (secured (app_options app) hs)) s)
      → Shields (chain h (json_base (app_options app) limit) q (begun hs) s)
  based limit h q hs s = subst Shields (sym (chain-json_base (app_options app) limit h q hs s))

  over_security :
      (h : Serve) (q : Call) (hs : Headers) (s : Site)
      → Shields (h q (begun (secured (app_options app) hs)) s)
      → Shields (chain h (security_headers (app_options app) ∷ no_store ∷ []) q (begun hs) s)
  over_security h q hs s = subst Shields (sym (chain-secured (app_options app) h q hs s))

  as_json-Shields :
      {A : Type 0} (route : Route A) (q : Call) (hs : Headers) (s : Site)
      → IsFramed hs
      → Shields (as_json app.codec route q (begun hs) s)
  unfolding as_json
  as_json-Shields route q hs s f =
      respond-IsShielded q.web.request.request_id (route q.web none s.world).0 hs f

  cookies_set-IsFramed :
      (cs : List Cookie) (hs : Headers)
      → IsFramed hs
      → (hs' : Headers) × (cookies_set app cs (begun hs) ≡ begun hs') × IsFramed hs'
  cookies_set-IsFramed [] hs f = (hs, refl, f)
  cookies_set-IsFramed (c ∷ cs) hs f = cookies_set-IsFramed cs _ (append-IsFramed hs _ f)

  ended-IsShielded :
      (id : Bytes) (x : Response (List Cookie)) (hs : Headers)
      → IsFramed hs
      → IsShielded (ended app id x (begun hs)).sent
  unfolding error json status_header status_write raw_header raw_write
  ended-IsShielded id (reply status cookies) hs f =
      let (hs', e, f') = cookies_set-IsFramed cookies hs f in
      subst (λ (x : Exchange). IsShielded (json app.codec recorder status done x).sent) (sym e)
        (_, refl, json_headers-IsFramed hs' f')
  ended-IsShielded id (refused r) hs f = respond-IsShielded {A = Done} id (refused r) hs f

  see_other-IsShielded :
      (location : Bytes) (hs : Headers)
      → IsFramed hs
      → IsShielded (see_other app location (begun hs)).sent
  unfolding same status_header status_write raw_header raw_write
  see_other-IsShielded location hs f = (
    _,
    refl,
    set_header-IsFramed _ _ _ refl refl refl (set_header-IsFramed _ _ _ refl refl refl f),
  )

  started-IsShielded :
      (cookies : List Cookie) (location : Bytes) (hs : Headers)
      → IsFramed hs
      → IsShielded (started app (record { cookies = cookies; location = location }) (begun hs)).sent
  unfolding same
  started-IsShielded [] location hs f = see_other-IsShielded location hs f
  started-IsShielded (c ∷ cs) location hs f =
      let (hs', e, f') = cookies_set-IsFramed (c ∷ cs) hs f in
      subst
        (λ (x : Exchange).
          IsShielded (see_other app location (set (text "Cache-Control") (text "no-store") x)).sent)
        (sym e) (see_other-IsShielded location _ (set_header-IsFramed _ _ _ refl refl refl f'))

  called_back-IsShielded :
      (l : Landing) (hs : Headers) → IsFramed hs → IsShielded (called_back app l (begun hs)).sent
  unfolding same
  called_back-IsShielded l hs f =
      let (hs', e, f') =
        cookies_set-IsFramed l.cookies _
          (set_header-IsFramed (text "Cache-Control") (text "no-store") hs refl refl refl f) in
      subst (λ (x : Exchange). IsShielded (see_other app l.location x).sent) (sym e)
        (see_other-IsShielded l.location hs' f')

  landed-IsShielded :
      (write : Landing → Exchange → Exchange) (id : Bytes) (x : Response Landing) (hs : Headers)
      → ((l : Landing) → IsShielded (write l (begun hs)).sent)
      → IsFramed hs
      → IsShielded (landed app write id x (begun hs)).sent
  landed-IsShielded write id (reply status l) hs h f = h l
  landed-IsShielded write id (refused r) hs h f = respond-IsShielded {A = Done} id (refused r) hs f

  login_serve-Shields :
      (visit : Call → Visit) (write : Landing → Exchange → Exchange) (q : Call) (hs : Headers)
      (s : Site)
      → ((l : Landing) (hs' : Headers) → IsFramed hs' → IsShielded (write l (begun hs')).sent)
      → Shields (login_serve app visit write q (begun hs) s)
  unfolding login_serve
  login_serve-Shields visit write q hs s h = over_security _ q hs s (
      landed-IsShielded write q.web.request.request_id _ _ (λ l. h l _ (secured-IsFramed app hs))
        (secured-IsFramed app hs))

  signed-Shields :
      {A : Type 0} (h : Call → User → Request → Handler A) (q : Call) (hs : Headers) (s : Site)
      → Shields (signed app h q (begun hs) s)
  unfolding signed as_json
  signed-Shields h q hs s =
      based max_json_body_bytes _ q hs s
        (respond-IsShielded q.web.request.request_id _ _ (secured-IsFramed app hs))

  anonymous-Shields :
      {A : Type 0} (h : Request → Handler A) (q : Call) (hs : Headers) (s : Site)
      → Shields (anonymous app h q (begun hs) s)
  unfolding anonymous as_json
  anonymous-Shields h q hs s =
      based max_json_body_bytes _ q hs s
        (respond-IsShielded q.web.request.request_id _ _ (secured-IsFramed app hs))

  end_serve-Shields : (q : Call) (hs : Headers) (s : Site) → Shields (end_serve app q (begun hs) s)
  unfolding end_serve
  end_serve-Shields q hs s =
      based max_json_body_bytes _ q hs s
        (ended-IsShielded q.web.request.request_id _ _ (secured-IsFramed app hs))

  upload_serve-Shields :
      (q : Call) (hs : Headers) (s : Site) → Shields (upload_serve app q (begun hs) s)
  unfolding upload_serve
  upload_serve-Shields q hs s =
      based (app.config.max_image_bytes + 1048576) _ q hs s
        (respond-IsShielded q.web.request.request_id _ _ (secured-IsFramed app hs))

  me_serve-Shields : (q : Call) (hs : Headers) (s : Site) → Shields (me_serve app q (begun hs) s)
  unfolding me_serve as_json
  me_serve-Shields q hs s =
      based max_json_body_bytes _ q hs s
        (respond-IsShielded q.web.request.request_id _ _ (secured-IsFramed app hs))

  start_serve-Shields :
      (q : Call) (hs : Headers) (s : Site) → Shields (start_serve app q (begun hs) s)
  unfolding start_serve
  start_serve-Shields q hs s =
      login_serve-Shields _ (started app) q hs s
        λ l hs'. started-IsShielded l.cookies l.location hs'

  callback_serve-Shields :
      (q : Call) (hs : Headers) (s : Site) → Shields (callback_serve app q (begun hs) s)
  unfolding callback_serve
  callback_serve-Shields q hs s =
      login_serve-Shields _ (called_back app) q hs s λ l hs'. called_back-IsShielded l hs'

  -- A route that answers with JSON or with a redirection sends, for any request, whatever the
  -- outcome and the headers that are already set: no frame may hold it, its type is not guessed, and the
  -- policy of the application forbids frames too.
  pub endpoint_serve-Shields :
      (e : Endpoint) (q : Call) (hs : Headers) (s : Site)
      → is_answer e ≡ true
      → Shields (endpoint_serve app e q (begun hs) s)
  unfolding endpoint_serve as_json
  endpoint_serve-Shields health q hs s a =
      over_security (as_json app.codec λ q c. health_handler) q hs s
        (as_json-Shields (λ q c. health_handler) q _ s (secured-IsFramed app hs))
  endpoint_serve-Shields oauth_start q hs s a = start_serve-Shields q hs s
  endpoint_serve-Shields oauth_callback q hs s a = callback_serve-Shields q hs s
  endpoint_serve-Shields profile q hs s a = me_serve-Shields q hs s
  endpoint_serve-Shields session_end q hs s a = end_serve-Shields q hs s
  endpoint_serve-Shields image_new q hs s a = upload_serve-Shields q hs s
  endpoint_serve-Shields public_wheel q hs s a = anonymous-Shields _ q hs s
  endpoint_serve-Shields public_spin q hs s a = anonymous-Shields _ q hs s
  endpoint_serve-Shields wheel_list q hs s a = signed-Shields _ q hs s
  endpoint_serve-Shields wheel_new q hs s a = signed-Shields _ q hs s
  endpoint_serve-Shields wheel_view q hs s a = signed-Shields _ q hs s
  endpoint_serve-Shields wheel_patch q hs s a = signed-Shields _ q hs s
  endpoint_serve-Shields wheel_delete q hs s a = signed-Shields _ q hs s
  endpoint_serve-Shields segments_put q hs s a = signed-Shields _ q hs s
  endpoint_serve-Shields spin_list q hs s a = signed-Shields _ q hs s
  endpoint_serve-Shields image_list q hs s a = signed-Shields _ q hs s
  endpoint_serve-Shields allowed_list q hs s a = signed-Shields _ q hs s
  endpoint_serve-Shields allowed_new q hs s a = signed-Shields _ q hs s
  endpoint_serve-Shields allowed_delete q hs s a = signed-Shields _ q hs s
  endpoint_serve-Shields image_file q hs s a = cc
  endpoint_serve-Shields index_page q hs s a = cc
  endpoint_serve-Shields edit_page q hs s a = cc
  endpoint_serve-Shields accounts_page q hs s a = cc
  endpoint_serve-Shields embed_page q hs s a = cc
  endpoint_serve-Shields static_file q hs s a = cc
