-- ===== src/Router/Table.antt =====
-- The patterns of `NewRouter`, and how `http.ServeMux` matches them: a GET pattern takes HEAD too, a
-- wildcard is one segment that is not empty, and a pattern with a slash at its end takes the paths
-- below. Percent escapes in a path are not decoded. The redirections of the mux stand in Router/Serving.
use spin_the_wheel.Prelude.{
  ℕ, Bool, true, false, ◌&&◌, not, Option, List, [], ◌∷◌, Bytes, text, same, find, any, ◌==◌,
  if◌then◌else◌,
}
use spin_the_wheel.Api.Gate.{Method, get, head, post, put, patch, delete}

pub data Endpoint : Type 0 where
  health oauth_start oauth_callback profile session_end : Endpoint
  wheel_list wheel_new wheel_view wheel_patch wheel_delete segments_put spin_list : Endpoint
  image_list image_new allowed_list allowed_new allowed_delete : Endpoint
  public_wheel public_spin image_file : Endpoint
  index_page edit_page accounts_page embed_page static_file : Endpoint

-- A segment of a pattern; `below` is the slash at its end.
pub data Segment : Type 0 where
  literal : Bytes → Segment
  wildcard below : Segment

abbrev pub method_of : Endpoint → Method
method_of session_end = post
method_of wheel_new = post
method_of wheel_patch = patch
method_of wheel_delete = delete
method_of segments_put = put
method_of image_new = post
method_of allowed_new = post
method_of allowed_delete = delete
method_of public_spin = post
method_of _ = get

abbrev api : List Segment → List Segment
api rest = literal (text "api") ∷ rest

abbrev wheel_of : List Segment → List Segment
wheel_of rest = api (literal (text "wheels") ∷ wildcard ∷ rest)

abbrev pub pattern_of : Endpoint → List Segment
pattern_of health = literal (text "healthz") ∷ []
pattern_of oauth_start =
    literal (text "auth") ∷ literal (text "google") ∷ literal (text "start") ∷ []
pattern_of oauth_callback =
    literal (text "auth") ∷ literal (text "google") ∷ literal (text "callback") ∷ []
pattern_of profile = api (literal (text "me") ∷ [])
pattern_of session_end = api (literal (text "logout") ∷ [])
pattern_of wheel_list = api (literal (text "wheels") ∷ [])
pattern_of wheel_new = api (literal (text "wheels") ∷ [])
pattern_of wheel_view = wheel_of []
pattern_of wheel_patch = wheel_of []
pattern_of wheel_delete = wheel_of []
pattern_of segments_put = wheel_of (literal (text "segments") ∷ [])
pattern_of spin_list = wheel_of (literal (text "spins") ∷ [])
pattern_of image_list = api (literal (text "images") ∷ [])
pattern_of image_new = api (literal (text "images") ∷ [])
pattern_of allowed_list = api (literal (text "allowed-emails") ∷ [])
pattern_of allowed_new = api (literal (text "allowed-emails") ∷ [])
pattern_of allowed_delete = api (literal (text "allowed-emails") ∷ wildcard ∷ [])
pattern_of public_wheel = api (literal (text "embed") ∷ wildcard ∷ [])
pattern_of public_spin = api (literal (text "embed") ∷ wildcard ∷ literal (text "spin") ∷ [])
pattern_of image_file = literal (text "img") ∷ wildcard ∷ []
pattern_of index_page = literal [] ∷ []
pattern_of edit_page = literal (text "wheels") ∷ wildcard ∷ []
pattern_of accounts_page = literal (text "comptes") ∷ []
pattern_of embed_page = literal (text "embed") ∷ wildcard ∷ []
pattern_of static_file = literal (text "static") ∷ below ∷ []

abbrev pub endpoints : List Endpoint
endpoints =
    health ∷ oauth_start ∷ oauth_callback ∷ profile ∷ session_end ∷ wheel_list ∷ wheel_new
    ∷ wheel_view ∷ wheel_patch ∷ wheel_delete ∷ segments_put ∷ spin_list ∷ image_list ∷ image_new
    ∷ allowed_list ∷ allowed_new ∷ allowed_delete ∷ public_wheel ∷ public_spin ∷ image_file
    ∷ index_page ∷ edit_page ∷ accounts_page ∷ embed_page ∷ static_file ∷ []

-- The parts of a path between its slashes.
abbrev pub push : ℕ → List Bytes → List Bytes
push c [] = (c ∷ []) ∷ []
push c (p ∷ ps) = (c ∷ p) ∷ ps

unfoldable pub split_path : Bytes → List Bytes
split_path [] = [] ∷ []
split_path (c ∷ cs) = let rest = split_path cs in if c == 0x2f then [] ∷ rest else push c rest

-- The parts behind the first slash.
abbrev pub parts_of : Bytes → List Bytes
parts_of path = elim (split_path path) [ [] ↦ [] | p ∷ ps ↦ ps ]

unfoldable pub matches_path : List Segment → List Bytes → Bool
matches_path [] [] = true
matches_path (below ∷ []) (p ∷ ps) = true
matches_path (literal l ∷ ss) (p ∷ ps) = same l p && matches_path ss ps
matches_path (wildcard ∷ ss) (p ∷ ps) = not (same p []) && matches_path ss ps
matches_path _ _ = false

-- The value of the wildcard, empty where the pattern has none.
unfoldable pub wildcard_value : List Segment → List Bytes → Bytes
wildcard_value (wildcard ∷ ss) (p ∷ ps) = p
wildcard_value (literal l ∷ ss) (p ∷ ps) = wildcard_value ss ps
wildcard_value _ _ = []

abbrev pub takes_method : Method → Method → Bool
takes_method get get = true
takes_method get head = true
takes_method post post = true
takes_method put put = true
takes_method patch patch = true
takes_method delete delete = true
takes_method _ _ = false

unfoldable pub matches : Method → List Bytes → Endpoint → Bool
unfolding matches_path
matches m parts e = takes_method (method_of e) m && matches_path (pattern_of e) parts

-- The endpoint of a request: the first pattern that takes it.
unfoldable pub find_endpoint : Method → Bytes → Option Endpoint
unfolding matches split_path
find_endpoint m path = find (matches m (parts_of path)) endpoints

-- 405 where another method has the path, and else 404.
unfoldable pub missing_status : Bytes → ℕ
unfolding matches_path split_path
missing_status path =
    if any (λ e. matches_path (pattern_of e) (parts_of path)) endpoints then 405 else 404
