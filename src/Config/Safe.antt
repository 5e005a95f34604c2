-- ===== src/Config/Safe.antt =====
-- What a configuration that `Load` returns has.
use mathlib.Core.Path.{subst}
use spin_the_wheel.Prelude.{
  ℕ, ◌≤◌, ◌≡◌, refl, then-eq-some, Bool, true, false, not, ◌||◌, some, Bytes, text, same, same_iff,
  map, between, leb, length, arith, Bool-cases, inl, inr,
}
use spin_the_wheel.Config.{
  Integer, natural, negative, Library, Config, ensure, required, Url, built_config, secrets_of,
  cookies_of, bounds_of, is_env, within, frame_ancestors_of, emails_of, env_or, env_bool, env_int,
  base_url_of, load,
}

-- A configuration that is safe to run: secure cookies in production, and over https alone; a salt of
-- sixteen bytes; the bounds of a session and of an image.
pub record IsSafe (c : Config) : Type 0 where
  pub production_secure : c.env ≡ text "production" → c.cookie_secure ≡ true
  pub secure_https : c.cookie_secure ≡ true → c.base_url.scheme ≡ text "https"
  pub salted : 16 ≤ length c.ip_hash_salt
  pub session_least : 1 ≤ c.session_hours
  pub session_most : c.session_hours ≤ 2160
  pub image_least : 16384 ≤ c.max_image_bytes
  pub image_most : c.max_image_bytes ≤ 16777216

ensure-eq-some : (b : Bool) (u : Unit {0}) → ensure b ≡ some u → b ≡ true
ensure-eq-some true u e = refl
ensure-eq-some false u e = cc

within-bounds : (low high n : ℕ) (i : Integer) → within low high i ≡ some n → (low ≤ n) × (n ≤ high)
unfolding within
within-bounds low high n (negative m) e = cc
within-bounds low high n (natural m) e = elim (Bool-cases (between low high m)) [
  | inr outside ↦ let e' = rw outside at e in cc
  | inl inside ↦
      let e' = rw inside at e in let same_number : m ≡ n = cc in (ground arith, ground arith)
]

some_injective : {A : Type 0} {a b : A} → some a ≡ some b → a ≡ b
some_injective e = cc

implied : (a b : Bool) → (not a || b) ≡ true → a ≡ true → b ≡ true
implied true b h e = h
implied false b h e = cc

module _ (lib : Library) (getenv : Bytes → Bytes) where
  secrets_salted :
      (x : Bytes × Bytes × Bytes × Bytes) → secrets_of lib getenv ≡ some x → 16 ≤ length x.3
  unfolding secrets_of
  secrets_salted x e =
      let (_, _, e1) = then-eq-some (required (getenv (text "DATABASE_URL"))) _ e in
      let (_, _, e2) = then-eq-some (required (getenv (text "GOOGLE_CLIENT_ID"))) _ e1 in
      let (_, _, e3) = then-eq-some (required (getenv (text "GOOGLE_CLIENT_SECRET"))) _ e2 in
      let (u, long, e4) =
        then-eq-some (ensure (leb 16 (length (getenv (text "IP_HASH_SALT"))))) _ e3 in
      subst (λ (y : Bytes × Bytes × Bytes × Bytes). 16 ≤ length y.3) (some_injective e4)
        (let h = ensure-eq-some (leb 16 (length (getenv (text "IP_HASH_SALT")))) u long in
          ground arith)

  cookies_checked :
      (env : Bytes) (url : Url) (x : Bool × Bool)
      → cookies_of lib getenv env url ≡ some x
      → (env ≡ text "production" → x.0 ≡ true) × (x.0 ≡ true → url.scheme ≡ text "https")
  unfolding cookies_of
  cookies_checked env url x e =
      let (secure, _, e1) = then-eq-some (env_bool lib getenv (text "COOKIE_SECURE") true) _ e in
      let (trust, _, e2) = then-eq-some (env_bool lib getenv (text "TRUST_PROXY") true) _ e1 in
      let (u, production, e3) =
        then-eq-some (ensure (not (same env (text "production")) || secure)) _ e2 in
      let (v, https, e4) =
        then-eq-some (ensure (not secure || same url.scheme (text "https"))) _ e3 in
      subst
        (λ (y : Bool × Bool).
          (env ≡ text "production" → y.0 ≡ true) × (y.0 ≡ true → url.scheme ≡ text "https"))
        (some_injective e4)
        (
          λ h.
              implied (same env (text "production")) secure (ensure-eq-some _ u production)
                ((same_iff env (text "production")).1 h),
          λ h.
              (same_iff url.scheme (text "https")).0
                (implied secure (same url.scheme (text "https")) (ensure-eq-some _ v https) h),
        )

  AreBounds : ℕ × ℕ → Type 0
  AreBounds x = (1 ≤ x.0) × (x.0 ≤ 2160) × (16384 ≤ x.1) × (x.1 ≤ 16777216)

  bounds_checked : (x : ℕ × ℕ) → bounds_of lib getenv ≡ some x → AreBounds x
  unfolding bounds_of AreBounds
  bounds_checked x e =
      let (ttl, _, e1) = then-eq-some (env_int lib getenv (text "SESSION_TTL_HOURS") 168) _ e in
      let (hours, session, e2) = then-eq-some (within 1 2160 ttl) _ e1 in
      let (size, _, e3) = then-eq-some (env_int lib getenv (text "MAX_IMAGE_BYTES") 2097152) _ e2 in
      let (bytes, image, e4) = then-eq-some (within 16384 16777216 size) _ e3 in
      let (h1, h2) = within-bounds 1 2160 hours ttl session in
      let (h3, h4) = within-bounds 16384 16777216 bytes size image in
      subst (AreBounds) (some_injective e4) (h1, h2, h3, h4)

  -- Whatever the environment, a configuration that `Load` returns has secure cookies in production, an
  -- https address where the cookies are secure, a salt of sixteen bytes at least, a session of 1 to
  -- 2160 hours and an image limit of 16384 to 16777216 bytes.
  pub load-IsSafe : (c : Config) → load lib getenv ≡ some c → IsSafe c
  unfolding load AreBounds
  load-IsSafe c e =
      let env = env_or lib getenv (text "APP_ENV") (text "production") in
      let (_, _, e1) = then-eq-some (ensure (is_env env)) _ e in
      let (url, _, e2) = then-eq-some (base_url_of lib getenv (getenv (text "BASE_URL"))) _ e1 in
      let (secrets, at_secrets, e3) = then-eq-some (secrets_of lib getenv) _ e2 in
      let (cookies, at_cookies, e4) = then-eq-some (cookies_of lib getenv env url) _ e3 in
      let (emails, _, e5) =
        then-eq-some
          (emails_of (
            map (λ part. lib.lower (lib.trim part))
              (lib.split_commas (getenv (text "BOOTSTRAP_ADMIN_EMAILS")))))
          _ e4 in
      let (ancestors, _, e6) =
        then-eq-some (frame_ancestors_of (lib.fields (getenv (text "EMBED_FRAME_ANCESTORS")))) _
          e5 in
      let (bounds, at_bounds, e7) = then-eq-some (bounds_of lib getenv) _ e6 in
      let checked = bounds_checked bounds at_bounds in
      subst IsSafe
        (some_injective {a = built_config lib getenv url secrets cookies emails ancestors bounds}
          e7)
        (record {
          production_secure = (cookies_checked env url cookies at_cookies).0;
          secure_https = (cookies_checked env url cookies at_cookies).1;
          salted = secrets_salted secrets at_secrets;
          session_least = checked.0;
          session_most = checked.1;
          image_least = checked.2;
          image_most = checked.3;
        })
