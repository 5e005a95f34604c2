-- ===== src/Api/Reply.antt =====
-- Responses: backend/internal/httpx/respond.go, and `notFound`, `writeError`, `pathUUID` and
-- `audit` of backend/internal/api. The messages of an error are left out.
use spin_the_wheel.Prelude.{
  ℕ, not, ◌&&◌, Option, none, some, [], ◌∷◌, ◌++◌, Bytes, same, text, if◌then◌else◌, ◌≡◌, refl,
}
use spin_the_wheel.Uid.{is_zero, hex_encode}
use spin_the_wheel.Store.Tables.{Action}
use spin_the_wheel.Store.Monad.{StoreError, not_found, failed, Result, ok, err, World, M}
use spin_the_wheel.Store.Audit.{AuditEntry, audit}

-- The codes that a client sees.
pub data ErrorCode : Type 0 where
  bad_request unauthorized forbidden missing too_large rate_limited internal : ErrorCode

-- An error response: its status, its code and a Retry-After header.
pub record Refusal : Type 0 where
  pub status : ℕ
  pub code : ErrorCode
  pub retry_after : Option ℕ

pub data Response (A : Type 0) : Type 0 where
  reply : ℕ → A → Response A
  refused : Refusal → Response A

abbrev pub Handler : Type 0 → Type 0
Handler A = World → Response A × World

-- What the handlers read of a request: the identifier of the path, the caller's address as
-- `ClientIP` resolves it, its User-Agent, and the identifier of the request.
pub record Request : Type 0 where
  pub path_id : Bytes
  pub client_ip : Bytes
  pub user_agent : Bytes
  pub request_id : Bytes

-- `Err`
abbrev pub refusal : ℕ → ErrorCode → Refusal
refusal status code = record { status = status; code = code; retry_after = none }

-- `notFound`, and `writeError` for a validation error and for any other.
abbrev pub not_found_reply : Refusal
not_found_reply = refusal 404 missing

abbrev pub invalid_reply : Refusal
invalid_reply = refusal 400 bad_request

abbrev pub internal_reply : StoreError → Refusal
internal_reply _ = refusal 500 internal

-- ErrNotFound is a 404, any other error is a 500.
abbrev pub found_or_internal : StoreError → Refusal
found_or_internal not_found = not_found_reply
found_or_internal failed = internal_reply failed

abbrev pub answer : {A : Type 0} → ℕ → A → Handler A
answer status a w = (reply status a, w)

abbrev pub refuse : {A : Type 0} → Refusal → Handler A
refuse r w = (refused r, w)

abbrev pub attempted :
    {A B : Type 0} → Result A → (StoreError → Refusal) → (A → Handler B) → Handler B
attempted (ok a) failing rest w = rest a w
attempted (err e) failing rest w = (refused (failing e), w)

-- A call of the store: an error ends the handler.
abbrev pub attempt : {A B : Type 0} → M A → (StoreError → Refusal) → (A → Handler B) → Handler B
attempt m failing rest w = attempted (m w).0 failing rest (m w).1

-- `hashIP`
unfoldable pub hash_ip : (Bytes → Bytes) → Bytes → Bytes → Bytes
hash_ip sha256 salt [] = []
hash_ip sha256 salt (b ∷ bs) = sha256 (salt ++ b ∷ bs)

-- The address in an audit entry: that of an anonymous caller is replaced by its digest.
unfoldable pub audit_ip : (Bytes → Bytes) → Bytes → Bytes → Bytes → Bytes
unfolding hash_ip is_zero hex_encode
audit_ip sha256 salt actor ip =
    if is_zero actor && not (same ip [])
    then text "sha256:" ++ hex_encode (hash_ip sha256 salt ip)
    else ip

-- `audit`: the handler goes on whether the entry could be written or not.
abbrev pub entry : (Bytes → Bytes) → Bytes → Request → Bytes → Action → Bytes → Bytes → AuditEntry
entry sha256 salt q actor action entity_type entity = record {
  actor_id = actor;
  action = action;
  entity_type = entity_type;
  entity_id = entity;
  ip = audit_ip sha256 salt actor q.client_ip;
  user_agent = q.user_agent;
  request_id = q.request_id;
}

abbrev pub audited : {A : Type 0} → AuditEntry → Handler A → Handler A
audited e rest w = rest (audit e w).1

-- A guard: the handler goes on with a value, or refuses.
abbrev pub guarded : {A B : Type 0} → Option A → Refusal → (A → Handler B) → Handler B
guarded none r rest = refuse r
guarded (some a) r rest = rest a

attempted-eq-reply :
    {A B : Type 0} (r : Result A) (failing : StoreError → Refusal) (rest : A → Handler B)
    (w : World) {s : ℕ} {b : B}
    → (attempted r failing rest w).0 ≡ reply s b
    → (a : A) × (r ≡ ok a) × (attempted r failing rest w ≡ rest a w)
attempted-eq-reply (ok a) failing rest w e = (a, refl, refl)
attempted-eq-reply (err x) failing rest w e = cc

-- A handler that replies behind a call of the store has had a result of it.
pub attempt-eq-reply :
    {A B : Type 0} (m : M A) (failing : StoreError → Refusal) (rest : A → Handler B) (w : World)
    {s : ℕ} {b : B}
    → (attempt m failing rest w).0 ≡ reply s b
    → (a : A) × ((m w).0 ≡ ok a) × (attempt m failing rest w ≡ rest a (m w).1)
attempt-eq-reply m failing rest w e = attempted-eq-reply (m w).0 failing rest (m w).1 e

attempted-keeps :
    {A B : Type 0} (P : Response B → World → Type 0) (r : Result A) (failing : StoreError → Refusal)
    (rest : A → Handler B) (w : World)
    → ((x : StoreError) → r ≡ err x → P (refused (failing x)) w)
    → ((a : A) → r ≡ ok a → P (rest a w).0 (rest a w).1)
    → P (attempted r failing rest w).0 (attempted r failing rest w).1
attempted-keeps P (ok a) failing rest w bad good = good a refl
attempted-keeps P (err x) failing rest w bad good = bad x refl

-- What holds of a call that fails and of the rest behind one that succeeds.
pub attempt-keeps :
    {A B : Type 0} (P : Response B → World → Type 0) (m : M A) (failing : StoreError → Refusal)
    (rest : A → Handler B) (w : World)
    → ((x : StoreError) → (m w).0 ≡ err x → P (refused (failing x)) (m w).1)
    → ((a : A) → (m w).0 ≡ ok a → P (rest a (m w).1).0 (rest a (m w).1).1)
    → P (attempt m failing rest w).0 (attempt m failing rest w).1
attempt-keeps P m failing rest w bad good = attempted-keeps P (m w).0 failing rest (m w).1 bad good

pub guarded-eq-reply :
    {A B : Type 0} (o : Option A) (r : Refusal) (rest : A → Handler B) (w : World) {s : ℕ} {b : B}
    → (guarded o r rest w).0 ≡ reply s b
    → (a : A) × (o ≡ some a) × (guarded o r rest w ≡ rest a w)
guarded-eq-reply none r rest w e = cc
guarded-eq-reply (some a) r rest w e = (a, refl, refl)

pub guarded-keeps :
    {A B : Type 0} (P : Response B → World → Type 0) (o : Option A) (r : Refusal)
    (rest : A → Handler B) (w : World)
    → P (refused r) w
    → ((a : A) → o ≡ some a → P (rest a w).0 (rest a w).1)
    → P (guarded o r rest w).0 (guarded o r rest w).1
guarded-keeps P none r rest w bad good = bad
guarded-keeps P (some a) r rest w bad good = good a refl
