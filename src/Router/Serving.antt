-- ===== src/Router/Serving.antt =====
-- The routes of `NewRouter` with their handlers, the mux, and the chain around it, of
-- backend/internal/api/router.go.
use spin_the_wheel.Prelude.{
  ℕ, Bool, ◌==◌, if◌then◌else◌, Option, none, some, [], ◌∷◌, ◌++◌, ◌&&◌, Bytes, text, same,
}
use spin_the_wheel.Api.Spin.{get_embed_wheel, spin}
use spin_the_wheel.Api.Wheels.{
  list_wheels_handler, get_wheel, list_spins_handler, list_allowed, delete_wheel, delete_allowed,
}
use spin_the_wheel.Api.Wheels.Writing.{create_wheel_handler, patch_wheel, put_segments, add_allowed}
use spin_the_wheel.Images.Upload.{list_images_handler}
use spin_the_wheel.Web.{Exchange, Call, returned, Serve, chain, status_header, status_write}
use spin_the_wheel.Web.Json.{as_json, decode_json, set}
use spin_the_wheel.Web.Outer.{
  security_headers, no_store, cache_for, request_id, recover, access_log,
}
use spin_the_wheel.Router.Table.{
  Endpoint, health, oauth_start, oauth_callback, profile, session_end, wheel_list, wheel_new,
  wheel_view, wheel_patch, wheel_delete, segments_put, spin_list, image_list, image_new,
  allowed_list, allowed_new, allowed_delete, public_wheel, public_spin, image_file, index_page,
  edit_page, accounts_page, embed_page, static_file, pattern_of, parts_of, wildcard_value,
  find_endpoint, missing_status, takes_method,
}
use spin_the_wheel.Api.Gate.{Method, get}
use spin_the_wheel.Router.Endpoints.{
  App, limits, app_options, embed_options, origin, signed, anonymous, end_serve, upload_serve,
}
use spin_the_wheel.Router.Handlers.{
  plain_error, no_dir_list, health_handler, start_serve, callback_serve, me_serve, image_serve,
  page,
}

-- The identifier of the path, as `PathValue` gives it.
abbrev pub with_path_id : Endpoint → Call → Call
with_path_id e q = record q {
  web = record q.web {
    request = record q.web.request { path_id = wildcard_value (pattern_of e) (parts_of q.path) };
  };
}

abbrev pub missing_text : ℕ → Bytes
missing_text status = if status == 405 then text "Method Not Allowed" else text "404 page not found"

module _ (app : App) where
  abbrev salt : Bytes
  salt = app.config.ip_hash_salt

  abbrev body : {A : Type 0} → (Bytes × Bool → Option (A × Bool)) → Call → Option A
  body decoder q = decode_json app.codec decoder q.content_type q

  -- The handler of a route, behind its chain.
  unfoldable pub endpoint_serve : Endpoint → Serve
  unfolding signed anonymous end_serve upload_serve health_handler start_serve callback_serve
      me_serve image_serve no_dir_list decode_json security_headers no_store cache_for as_json chain
  endpoint_serve health =
      chain (as_json app.codec λ q c. health_handler)
        (security_headers (app_options app) ∷ no_store ∷ [])
  endpoint_serve oauth_start = start_serve app
  endpoint_serve oauth_callback = callback_serve app
  endpoint_serve profile = me_serve app
  endpoint_serve session_end = end_serve app
  endpoint_serve wheel_list = signed app λ q. list_wheels_handler
  endpoint_serve wheel_new = signed app λ q u r.
      create_wheel_handler app.transport.sha256 app.lower app.trim salt limits u r
        (body app.title_of q)
  endpoint_serve wheel_view = signed app λ q u r. get_wheel (origin app) u r
  endpoint_serve wheel_patch = signed app λ q u r.
      patch_wheel app.transport.sha256 app.lower app.trim salt limits u r (body app.patch_of q)
  endpoint_serve wheel_delete = signed app λ q. delete_wheel app.transport.sha256 salt
  endpoint_serve segments_put = signed app λ q u r.
      put_segments app.transport.sha256 app.lower app.trim salt limits u r (body app.segments_of q)
  endpoint_serve spin_list = signed app λ q. list_spins_handler
  endpoint_serve image_list = signed app λ q. list_images_handler
  endpoint_serve image_new = upload_serve app
  endpoint_serve allowed_list = signed app λ q u. list_allowed
  endpoint_serve allowed_new = signed app λ q u r.
      add_allowed app.transport.sha256 app.lower app.trim salt limits u r (body app.allowed_of q)
  endpoint_serve allowed_delete = signed app λ q. delete_allowed app.transport.sha256 salt
  endpoint_serve public_wheel = anonymous app get_embed_wheel
  endpoint_serve public_spin = anonymous app (spin app.rand_int app.transport.sha256 salt)
  endpoint_serve image_file = image_serve app
  endpoint_serve index_page =
      chain (page app (text "index.html")) (security_headers (app_options app) ∷ [])
  endpoint_serve edit_page =
      chain (page app (text "edit.html")) (security_headers (app_options app) ∷ [])
  endpoint_serve accounts_page =
      chain (page app (text "accounts.html")) (security_headers (app_options app) ∷ [])
  endpoint_serve embed_page =
      chain (page app (text "embed.html")) (security_headers (embed_options app) ∷ [])
  endpoint_serve static_file =
      chain (no_dir_list app.files)
        (security_headers (app_options app) ∷ cache_for app.codec 300 ∷ [])

  -- The mux, of a path that it does not redirect.
  abbrev pub routed : Option Endpoint → Serve
  routed (some e) q x s = endpoint_serve e (with_path_id e q) x s
  routed none q x s = record {
    exit = returned;
    exchange = plain_error (missing_status q.path) (missing_text (missing_status q.path)) x;
    site = s;
  }

  -- The path to which the mux sends a request: that of a folder, with its slash, or the clean one. The
  -- query, which the mux keeps, is left out.
  unfoldable pub moved_to : Method → Bytes → Option Bytes
  moved_to m path =
      let c = app.clean path in
      if takes_method get m && same c (text "/static")
      then some (c ++ text "/")
      else if same c path
      then none
      else some c

  -- http.Redirect with 301: a type for GET and HEAD, a body for GET.
  abbrev pub moved_type : Method → Exchange → Exchange
  moved_type m x =
      if takes_method get m
      then set (text "Content-Type") (text "text/html; charset=utf-8") x
      else x

  abbrev pub moved_body : Method → Bytes → Exchange → Exchange
  moved_body get location x = status_write (app.moved_link location) x
  moved_body _ location x = x

  abbrev pub moved : Bytes → Method → Exchange → Exchange
  moved location m x =
      moved_body m location (status_header 301 (moved_type m (set (text "Location") location x)))

  abbrev pub directed : Option Bytes → Serve
  directed (some location) q x s = record {
    exit = returned;
    exchange = moved location q.web.method x;
    site = s;
  }
  directed none q x s = routed (find_endpoint q.web.method q.path) q x s

  unfoldable pub route : Serve
  unfolding endpoint_serve find_endpoint moved_to
  route q = directed (moved_to q.web.method q.path) q

  -- `NewRouter`
  unfoldable pub serve : Serve
  unfolding route
  serve = chain route (request_id ∷ recover app.codec ∷ access_log ∷ [])

-- The exchange of a request that begins.
abbrev pub unanswered : Exchange
unanswered = record { headers = []; sent = none; body = []; captured = 0; size = 0; log = [] }
