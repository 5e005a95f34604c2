-- ===== src/Router/Framing.antt =====
-- The headers of the answers that this code writes: no frame, no guess of a type.
use mathlib.Core.Path.{subst}
use spin_the_wheel.Prelude.{
  ℕ, ◌≡◌, ◌≢◌, refl, sym, ◌∙◌, Bool, true, false, Option, none, some, [], ◌∷◌, ◌++◌, Bytes, text,
  same, same_refl, same_iff, Bool-cases, inl, inr,
}
use spin_the_wheel.Web.{Headers, set_header, get_header}
use spin_the_wheel.Web.Json.{recorder, json_headers, announced}
use spin_the_wheel.Web.Outer.{added_if}
use spin_the_wheel.Router.Endpoints.{App, csp_base, app_options}
use spin_the_wheel.Router.Authority.{secured}

abbrev frames : Bytes
frames = text "X-Frame-Options"

abbrev types : Bytes
types = text "X-Content-Type-Options"

abbrev policy : Bytes
policy = text "Content-Security-Policy"

pub get_header-set_header : (k v : Bytes) (hs : Headers) → get_header k (set_header k v hs) ≡ v
unfolding get_header set_header
get_header-set_header k v [] = rw (same_refl k)
get_header-set_header k v ((l, w) ∷ hs) = elim (Bool-cases (same k l)) [
  | inl here ↦ rw (here, same_refl k)
  | inr there ↦ rw (there, there, get_header-set_header k v hs)
]

pub get_header-set_other :
    (k l v : Bytes) (hs : Headers)
    → same k l ≡ false
    → get_header k (set_header l v hs) ≡ get_header k hs
unfolding get_header set_header
get_header-set_other k l v [] e = rw e
get_header-set_other k l v ((j, w) ∷ hs) e = elim (Bool-cases (same l j)) [
  | inl here ↦
      let apart : same k j ≡ false = subst (λ i. same k i ≡ false) ((same_iff l j).0 here) e in
      rw (here, e, apart)
  | inr there ↦ elim (Bool-cases (same k j)) [
    | inl mine ↦ rw (there, mine)
    | inr other ↦ rw (there, other, get_header-set_other k l v hs e)
  ]
]

pub get_header-append :
    (k v : Bytes) (hs ys : Headers) → v ≢ [] → get_header k hs ≡ v → get_header k (hs ++ ys) ≡ v
unfolding get_header
get_header-append k v [] ys some_value e = elim (some_value (sym e)) [ ]
get_header-append k v ((l, w) ∷ hs) ys some_value e = elim (Bool-cases (same k l)) [
  | inl here ↦ rw here (rw here at e)
  | inr there ↦ rw there (get_header-append k v hs ys some_value (rw there at e))
]

-- The three headers, with the policy of the application.
pub record IsFramed (hs : Headers) : Type 0 where
  pub no_frame : get_header frames hs ≡ text "DENY"
  pub no_guess : get_header types hs ≡ text "nosniff"
  pub own_policy : get_header policy hs ≡ csp_base ++ text "; frame-ancestors 'none'"

pub set_header-IsFramed :
    (k v : Bytes) (hs : Headers)
    → same frames k ≡ false
    → same types k ≡ false
    → same policy k ≡ false
    → IsFramed hs
    → IsFramed (set_header k v hs)
set_header-IsFramed k v hs a b c f = record {
  no_frame = get_header-set_other frames k v hs a ∙ f.no_frame;
  no_guess = get_header-set_other types k v hs b ∙ f.no_guess;
  own_policy = get_header-set_other policy k v hs c ∙ f.own_policy;
}

pub json_headers-IsFramed : (hs : Headers) → IsFramed hs → IsFramed (json_headers hs)
unfolding same
json_headers-IsFramed hs f = set_header-IsFramed _ _ _ refl refl refl (record {
  no_frame =
      get_header-set_other frames _ _ _ refl ∙ get_header-set_other frames _ _ _ refl ∙ f.no_frame;
  no_guess = get_header-set_header types _ _;
  own_policy =
      get_header-set_other policy _ _ _ refl
      ∙ get_header-set_other policy _ _ _ refl
      ∙ f.own_policy;
})

pub announced-IsFramed :
    (app : App) (o : Option ℕ) (hs : Headers)
    → IsFramed hs
    → IsFramed (announced app.codec recorder o hs)
unfolding same
announced-IsFramed app none hs f = f
announced-IsFramed app (some n) hs f = set_header-IsFramed _ _ _ refl refl refl f

added_if-kept :
    (k l v : Bytes) (b : Bool) (hs : Headers)
    → same k l ≡ false
    → get_header k (added_if b l v hs) ≡ get_header k hs
added_if-kept k l v true hs e = get_header-set_other k l v hs e
added_if-kept k l v false hs e = refl

-- The headers that `secured` sets behind those.
unfoldable outer : Bool → Headers → Headers
outer hsts hs = set_header (text "Cache-Control") (text "no-store, max-age=0") (
    set_header (text "Cross-Origin-Resource-Policy") (text "same-origin") (
      set_header (text "Cross-Origin-Opener-Policy") (text "same-origin") (
        added_if hsts (text "Strict-Transport-Security")
          (text "max-age=31536000; includeSubDomains") hs)))

past :
    (k : Bytes) (hsts : Bool) (hs : Headers)
    → same k (text "Cache-Control") ≡ false
    → same k (text "Cross-Origin-Resource-Policy") ≡ false
    → same k (text "Cross-Origin-Opener-Policy") ≡ false
    → same k (text "Strict-Transport-Security") ≡ false
    → get_header k (outer hsts hs) ≡ get_header k hs
unfolding outer
past k hsts hs a b c d =
    get_header-set_other k _ _ _ a
    ∙ get_header-set_other k _ _ _ b
    ∙ get_header-set_other k _ _ _ c
    ∙ added_if-kept k _ _ hsts hs d

pub secured-IsFramed : (app : App) (hs : Headers) → IsFramed (secured (app_options app) hs)
unfolding same outer
secured-IsFramed app hs = record {
  no_frame =
      past frames app.config.cookie_secure _ refl refl refl refl ∙ get_header-set_header frames _ _;
  no_guess =
      past types app.config.cookie_secure _ refl refl refl refl
      ∙ get_header-set_other types _ _ _ refl
      ∙ get_header-set_other types _ _ _ refl
      ∙ get_header-set_other types _ _ _ refl
      ∙ get_header-set_header types _ _;
  own_policy =
      past policy app.config.cookie_secure _ refl refl refl refl
      ∙ get_header-set_other policy _ _ _ refl
      ∙ get_header-set_other policy _ _ _ refl
      ∙ get_header-set_other policy _ _ _ refl
      ∙ get_header-set_other policy _ _ _ refl
      ∙ get_header-set_header policy _ _;
}
