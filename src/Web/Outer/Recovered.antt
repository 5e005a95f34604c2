-- ===== src/Web/Outer/Recovered.antt =====
-- What becomes of a request whose handler ends, panics or aborts.
use spin_the_wheel.Prelude.{◌≡◌, refl, none, some, [], ◌∷◌, ◌++◌}
use spin_the_wheel.Utf8.{truncate}
use spin_the_wheel.Images.Disk.{Site}
use spin_the_wheel.Web.{
  Line, request_line, panic_line, Sent, Exchange, Call, Exit, returned, panicked, aborted, Turn,
  Serve, raw_header, raw_write,
}
use spin_the_wheel.Web.Json.{Codec, json_headers, json}
use spin_the_wheel.Web.Json as Json
use spin_the_wheel.Web.Outer.{final_status, level_of, accounted, access_log, recovered, recover}

abbrev access_line : Call → Exchange → Line
access_line q x =
    request_line (level_of (final_status x.captured)) q.web.request.request_id (truncate q.path 256)
      (final_status x.captured) x.size q.web.request.client_ip
      (truncate q.web.request.user_agent 256)

-- A request that ends, panics or aborts, with the exchange of its handler.
abbrev pub Answered : Call → Exit → Exchange → Turn → Type 0
Answered q returned x v =
    (v.exit ≡ returned)
    × (v.exchange.sent ≡ x.sent)
    × (v.exchange.log ≡ x.log ++ access_line q x ∷ [])
Answered q panicked x v =
    (v.exit ≡ returned)
    × (x.sent ≡ none
        → v.exchange.sent ≡ some (record { status = 500; headers = json_headers x.headers }))
    × ((before : Sent) → x.sent ≡ some before → v.exchange.sent ≡ some before)
    × (v.exchange.log ≡ x.log ++ panic_line q.web.request.request_id q.path ∷ [])
Answered q aborted x v = (v.exit ≡ aborted) × (v.exchange ≡ x)

recovered-Answered :
    (codec : Codec) (q : Call) (e : Exit) (x : Exchange) (s : Site)
    → Answered q e x (recovered codec q (accounted q (record { exit = e; exchange = x; site = s })))
unfolding raw_header raw_write json Json.error
recovered-Answered codec q returned x s = (refl, refl, refl)
recovered-Answered codec q panicked x s =
    (refl, λ unsent. rw unsent refl, λ before sent. rw sent refl, refl)
recovered-Answered codec q aborted x s = (refl, refl)

-- Behind `Recover` and `AccessLog` no handler takes the server down. One that ends has its answer as
-- it sent it, and one access line with its status. One that panics is answered by a 500 where nothing
-- had been sent, and else has the status that it had sent; its one line is that of the panic. One that
-- aborts is passed on.
pub recover-answers :
    (codec : Codec) (h : Serve) (q : Call) (x : Exchange) (s : Site)
    → Answered q
        (h q (record x { captured = 0; size = 0 }) s).exit
        (h q (record x { captured = 0; size = 0 }) s).exchange
        (recover codec (access_log h) q x s)
unfolding recover access_log
recover-answers codec h q x s =
    let t = h q (record x { captured = 0; size = 0 }) s in
    recovered-Answered codec q t.exit t.exchange t.site
