-- ===== src/Web/Json.antt =====
-- JSON bodies: `JSON` and `Err` of backend/internal/httpx/respond.go, and `decodeJSON` of
-- backend/internal/api/validate.go. encoding/json is the parameter `Codec`: one encoder for every type, as
-- `Encode` has it, and the scanner behind a value. The message of an error is left out.
use spin_the_wheel.Prelude.{
  ℕ, Bool, false, Option, none, some, [], ◌∷◌, ◌++◌, Bytes, text, same, take, length, ltb,
  if◌then◌else◌,
}
use spin_the_wheel.Api.Reply.{
  ErrorCode, bad_request, unauthorized, forbidden, missing, too_large, rate_limited, internal,
  Refusal, Response, reply, refused,
}
use spin_the_wheel.Api.Gate.{Route}
use spin_the_wheel.Web.{
  Headers, set_header, Exchange, raw_header, raw_write, status_header, status_write, Call, returned,
  Serve,
}

-- The constants of an error's code.
abbrev pub code_text : ErrorCode → Bytes
code_text bad_request = text "requete_invalide"
code_text unauthorized = text "non_authentifie"
code_text forbidden = text "interdit"
code_text missing = text "introuvable"
code_text too_large = text "trop_volumineux"
code_text rate_limited = text "trop_de_requetes"
code_text internal = text "erreur_interne"

-- `errorPayload`
pub record ErrorBody : Type 0 where
  pub code : Bytes
  pub request_id : Bytes

pub record Codec : Type 1 where
  pub encode : {A : Type 0} → A → Bytes
  pub decimal : ℕ → Bytes
  pub trim : Bytes → Bytes
  pub before_semicolon : Bytes → Bytes

-- A writer: that of the server, or the `statusWriter`.
pub record Sink : Type 0 where
  pub header : ℕ → Exchange → Exchange
  pub write : Bytes → Exchange → Exchange

abbrev pub server : Sink
server = record { header = raw_header; write = raw_write }

abbrev pub recorder : Sink
recorder = record { header = status_header; write = status_write }

abbrev pub set : Bytes → Bytes → Exchange → Exchange
set key value x = record x { headers = set_header key value x.headers }

-- The headers of a JSON body.
abbrev pub json_headers : Headers → Headers
json_headers hs = set_header (text "Cache-Control") (text "no-store") (
    set_header (text "X-Content-Type-Options") (text "nosniff")
      (set_header (text "Content-Type") (text "application/json; charset=utf-8") hs))

module _ (codec : Codec) (sink : Sink) where
  -- `JSON`
  unfoldable pub json : {A : Type 0} → ℕ → A → Exchange → Exchange
  json status payload x =
      sink.write (codec.encode payload ++ 0x0a ∷ [])
        (sink.header status (record x { headers = json_headers x.headers }))

  -- `Err`
  unfoldable pub error : Bytes → Refusal → Exchange → Exchange
  unfolding json
  error request_id r x =
      let body : ErrorBody = record { code = code_text r.code; request_id = request_id } in
      json r.status body x

  -- A refusal, with its Retry-After where it has one.
  abbrev pub announced : Option ℕ → Headers → Headers
  announced none hs = hs
  announced (some seconds) hs = set_header (text "Retry-After") (codec.decimal seconds) hs

  abbrev pub refused_with : Bytes → Refusal → Exchange → Exchange
  refused_with request_id r x =
      error request_id r (record x { headers = announced r.retry_after x.headers })

  abbrev pub respond : {A : Type 0} → Bytes → Response A → Exchange → Exchange
  respond request_id (reply status a) x = json status a x
  respond request_id (refused r) x = refused_with request_id r x

-- A route of the JSON interface as a handler: it has no context at first.
unfoldable pub as_json : {A : Type 0} → Codec → Route A → Serve
unfolding error
as_json codec route q x s =
    let (response, w) = route q.web none s.world in
    record {
      exit = returned;
      exchange = respond codec recorder q.web.request.request_id response x;
      site = record s { world = w };
    }

-- A body behind `MaxBytesReader`: what can be read of it, and whether the limit cuts it.
abbrev pub readable : Call → Bytes × Bool
readable q = elim q.body_limit [
  | none ↦ (q.body, false)
  | some limit ↦ (take limit q.body, ltb limit (length q.body))
]

-- A decoder of one type, which refuses unknown fields: the value, and whether more follows it.
abbrev pub Decoder : Type 0 → Type 0
Decoder A = Bytes × Bool → Option (A × Bool)

abbrev pub one_value : {A : Type 0} → Option (A × Bool) → Option A
one_value none = none
one_value (some (a, more)) = if more then none else some a

-- `decodeJSON`
unfoldable pub decode_json : {A : Type 0} → Codec → Decoder A → Bytes → Call → Option A
decode_json codec decoder content_type q =
    if same content_type []
    then one_value (decoder (readable q))
    else if same (codec.trim (codec.before_semicolon content_type)) (text "application/json")
    then one_value (decoder (readable q))
    else none
