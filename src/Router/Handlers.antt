-- ===== src/Router/Handlers.antt =====
-- The handlers of router.go and the whole router: `health`, `page`, `noDirList`, the redirections of the
-- login, the file of an image, the mux, and the chain around it. What `http.ServeFile`, `http.FileServer`
-- and `http.Redirect` write in a body is opaque; conditional and range requests are left out.
use spin_the_wheel.Prelude.{
  ℕ, Bool, false, ◌||◌, none, [], ◌∷◌, ◌++◌, Bytes, text, same, ◌==◌, if◌then◌else◌,
}
use spin_the_wheel.Store.Monad.{Result, ok, err, query}
use spin_the_wheel.Api.Reply.{Response, reply, refused, Handler, answer}
use spin_the_wheel.Api.Gate.{rate_limit, same_origin_write, resolve}
use spin_the_wheel.Auth.Login.{Landing, Visit, CallbackQuery, start, callback, me}
use spin_the_wheel.Images.Upload.{serve_image}
use spin_the_wheel.Web.{
  Exchange, Call, returned, Serve, Middleware, status_header, status_write, chain,
}
use spin_the_wheel.Web.Json.{recorder, set, refused_with, as_json}
use spin_the_wheel.Web.Outer.{security_headers, no_store}
use spin_the_wheel.Router.Endpoints.{
  App, max_json_body_bytes, json_base, app_options, auth_config, client, origin, cookies_set,
}

-- `http.Error` of the library, with its text: here that of `http.NotFound` and of the mux.
unfoldable pub plain_error : ℕ → Bytes → Exchange → Exchange
unfolding status_header status_write
plain_error status message x = status_write (message ++ 0x0a ∷ []) (
    status_header status (
      set (text "X-Content-Type-Options") (text "nosniff")
        (set (text "Content-Type") (text "text/plain; charset=utf-8") x)))

abbrev pub page_not_found : Exchange → Exchange
page_not_found x = plain_error 404 (text "404 page not found") x

abbrev pub ends_in_slash : Bytes → Bool
ends_in_slash [] = false
ends_in_slash (c ∷ []) = c == 0x2f
ends_in_slash (c ∷ d ∷ cs) = ends_in_slash (d ∷ cs)

-- `noDirList`
unfoldable pub no_dir_list : Middleware
unfolding plain_error
no_dir_list next q x s =
    if same q.path [] || ends_in_slash q.path
    then record { exit = returned; exchange = page_not_found x; site = s }
    else next q x s

-- `health`: `Ping` is a statement, and the payload is its status.
pub record Health : Type 0 where
  pub status : Bytes

abbrev pub healthy : Result (Unit {0}) → Response Health
healthy (ok u) = reply 200 (record { status = text "ok" })
healthy (err e) = reply 503 (record { status = text "degraded" })

unfoldable pub health_handler : Handler Health
health_handler w = let (result, w') = query (λ now db. tt) w in (healthy result, w')

module _ (app : App) where
  -- http.Redirect with 303
  abbrev pub see_other : Bytes → Exchange → Exchange
  see_other location x = status_write (app.link location) (
      status_header 303 (
        set (text "Content-Type") (text "text/html; charset=utf-8")
          (set (text "Location") location x)))

  -- `Start` says no-store where it has set the cookie of the state; `Callback` says it first.
  abbrev pub started : Landing → Exchange → Exchange
  started l x = elim l.cookies [
    | [] ↦ see_other l.location x
    | c ∷ cs ↦
        see_other l.location
          (set (text "Cache-Control") (text "no-store") (cookies_set app (c ∷ cs) x))
  ]

  abbrev pub called_back : Landing → Exchange → Exchange
  called_back l x =
      see_other l.location
        (cookies_set app l.cookies (set (text "Cache-Control") (text "no-store") x))

  abbrev pub landed :
      (Landing → Exchange → Exchange) → Bytes → Response Landing → Exchange → Exchange
  landed write id (reply status l) x = write l x
  landed write id (refused r) x = refused_with app.codec recorder id r x

  abbrev pub visited : Visit → Handler Landing
  visited v w = let (l, w') = v w in (reply 303 l, w')

  unfoldable pub login_serve : (Call → Visit) → (Landing → Exchange → Exchange) → Serve
  unfolding rate_limit
  login_serve visit write =
      chain
        (λ q x s.
          let (response, w) =
            rate_limit app.verdict (λ r c. visited (visit q)) q.web none s.world in
          record {
            exit = returned;
            exchange = landed write q.web.request.request_id response x;
            site = record s { world = w };
          })
        (security_headers (app_options app) ∷ no_store ∷ [])

  abbrev pub callback_query : Call → CallbackQuery
  callback_query q = record {
    request = q.web.request;
    state_cookie = q.state_cookie;
    error = q.error;
    code = q.code;
    state = q.state;
  }

  unfoldable pub start_serve : Serve
  unfolding login_serve start
  start_serve =
      login_serve
        (λ q.
          start app.transport (client app) (auth_config app) q.web.request (app.random 0)
            (app.random 1))
        started

  unfoldable pub callback_serve : Serve
  unfolding login_serve callback
  callback_serve =
      login_serve
        (λ q.
          callback app.transport (client app) (auth_config app) app.lower app.trim
            (callback_query q) (app.random 0) (app.random 1))
        called_back

  unfoldable pub me_serve : Serve
  unfolding same_origin_write rate_limit resolve me as_json
  me_serve =
      chain
        (as_json app.codec (
          same_origin_write app.equal_fold (origin app)
            (rate_limit app.verdict (resolve app.transport.sha256 λ q c. answer 200 (me c)))))
        (json_base (app_options app) max_json_body_bytes)

  -- `serveImage`
  abbrev pub image_headers : Exchange → Exchange
  image_headers x =
      set (text "Content-Security-Policy")
        (text "default-src 'none'; sandbox; frame-ancestors 'none'")
        (set (text "Cross-Origin-Resource-Policy") (text "same-origin") (
          set (text "Cache-Control") (text "public, max-age=31536000, immutable") (
            set (text "Content-Disposition") (text "inline") (
              set (text "X-Content-Type-Options") (text "nosniff")
                (set (text "Content-Type") (text "image/png") x)))))

  abbrev pub image_sent : Response Bytes → Exchange → Exchange
  image_sent (reply status content) x =
      status_write content (status_header status (image_headers x))
  image_sent (refused r) x = page_not_found x

  abbrev pub image_answer : Bytes → Response (Unit {0}) → Response Bytes → Exchange → Exchange
  image_answer id (reply status u) image x = image_sent image x
  image_answer id (refused r) image x = refused_with app.codec recorder id r x

  unfoldable pub image_serve : Serve
  unfolding rate_limit serve_image plain_error
  image_serve q x s =
      let (response, w) = rate_limit app.verdict (λ r c. answer 200 tt) q.web none s.world in
      record {
        exit = returned;
        exchange =
            image_answer q.web.request.request_id response
              (serve_image app.config.image_dir q.web.request s) x;
        site = record s { world = w };
      }

  -- `page`
  abbrev pub page : Bytes → Serve
  page name q x s =
      app.page name q
        (set (text "Cache-Control") (text "no-cache")
          (set (text "Content-Type") (text "text/html; charset=utf-8") x))
        s
