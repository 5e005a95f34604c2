-- ===== src/Auth/Google.antt =====
-- The client of the identity provider: backend/internal/auth/google.go, and the tokens of
-- session.go. What crosses the network or belongs to Go's library is the parameter `Transport`: the
-- two HTTP calls, the JSON decoders, SHA-256, base64url and the encoding of a query.
use mathlib.Core.Option
use spin_the_wheel.Prelude.{
  ◌>>=◌, ℕ, Bool, Option, none, some, List, [], ◌∷◌, ◌++◌, ◌||◌, Bytes, text, same, ◌==◌,
  if◌then◌else◌,
}

-- `GoogleUser`
pub record GoogleUser : Type 0 where
  pub sub : Bytes
  pub email : Bytes
  pub email_verified : Bool
  pub name : Bytes

-- A response of the provider: its status, and its body where it could be read.
pub record HttpAnswer : Type 0 where
  pub status : ℕ
  pub body : Option Bytes

abbrev pub Fields : Type 0
Fields = List (Bytes × Bytes)

pub record Transport : Type 0 where
  pub post : Fields → Option HttpAnswer
  pub get : Bytes → Option HttpAnswer
  pub access_token : Bytes → Option Bytes
  pub profile : Bytes → Option GoogleUser
  pub encode_query : Fields → Bytes
  pub sha256 : Bytes → Bytes
  pub base64 : Bytes → Bytes

-- `GoogleClient`
pub record GoogleClient : Type 0 where
  pub client_id : Bytes
  pub client_secret : Bytes
  pub redirect_url : Bytes

-- `newToken` and `newVerifier`, of the 32 random bytes where the generator gives them.
unfoldable pub new_token : Transport → Option Bytes → Option Bytes
new_token t random = Option.map t.base64 random

-- `hashToken`
abbrev pub hash_token : Transport → Bytes → Bytes
hash_token t = t.sha256

-- `challengeOf`
unfoldable pub challenge_of : Transport → Bytes → Bytes
challenge_of t verifier = t.base64 (t.sha256 verifier)

-- `AuthURL`
unfoldable pub auth_url : Transport → GoogleClient → Bytes → Bytes → Bytes
auth_url t c state challenge =
    text "https://accounts.google.com/o/oauth2/v2/auth"
    ++ (text "?"
        ++ t.encode_query (
            (text "client_id", c.client_id)
            ∷ (text "redirect_uri", c.redirect_url)
            ∷ (text "response_type", text "code")
            ∷ (text "scope", text "openid email profile")
            ∷ (text "state", state)
            ∷ (text "code_challenge", challenge)
            ∷ (text "code_challenge_method", text "S256")
            ∷ (text "access_type", text "online")
            ∷ (text "prompt", text "select_account")
            ∷ []))

-- The body of an answer with status 200.
unfoldable pub accepted_body : HttpAnswer → Option Bytes
accepted_body r = if r.status == 200 then r.body else none

abbrev pub not_empty : Bytes → Option Bytes
not_empty [] = none
not_empty (b ∷ bs) = some (b ∷ bs)

-- `Exchange`
unfoldable pub exchange : Transport → GoogleClient → Bytes → Bytes → Option Bytes
unfolding accepted_body
exchange t c code verifier = do
  r ← t.post (
      (text "code", code)
      ∷ (text "client_id", c.client_id)
      ∷ (text "client_secret", c.client_secret)
      ∷ (text "redirect_uri", c.redirect_url)
      ∷ (text "grant_type", text "authorization_code")
      ∷ (text "code_verifier", verifier)
      ∷ [])
  body ← accepted_body r
  token ← t.access_token body
  not_empty token

unfoldable pub complete : GoogleUser → Option GoogleUser
complete u = if same u.sub [] || same u.email [] then none else some u

-- `UserInfo`
unfoldable pub user_info : Transport → Bytes → Option GoogleUser
unfolding accepted_body complete
user_info t token = do r ← t.get token; body ← accepted_body r; u ← t.profile body; complete u
