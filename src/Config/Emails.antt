-- ===== src/Config/Emails.antt =====
-- The addresses of the environment in a configuration that `Load` returns.
use mathlib.Core.Path.{subst}
use spin_the_wheel.Prelude.{
  ◌≡◌, refl, sym, ◌⊎◌, inl, inr, then-eq-some, ◌&&◌, some, List, [], ◌∷◌, Bytes, text, same, map,
  All, Bool-cases, leb, length,
}
use spin_the_wheel.Api.Validate.Email.{matches_email}
use spin_the_wheel.Config.{
  Library, Config, ensure, built_config, secrets_of, cookies_of, bounds_of, is_env,
  frame_ancestors_of, emails_of, env_or, base_url_of, load,
}

-- What holds of all the addresses that `parseEmails` returns, holds of each part that is not empty.
emails_of-All :
    (Q : Bytes → Type 0) (es out : List Bytes)
    → emails_of es ≡ some out
    → All Q out
    → All (λ e. (e ≡ []) ⊎ Q e) es
unfolding emails_of same
emails_of-All Q [] out e h = tt
emails_of-All Q ([] ∷ es) out e h =
    let (rest, found, e1) = then-eq-some (emails_of es) _ e in
    let same_list : rest ≡ out = cc in
    (inl refl, emails_of-All Q es rest found (subst (All Q) (sym same_list) h))
emails_of-All Q ((b ∷ bs) ∷ es) out e h =
    let (rest, found, e1) = then-eq-some (emails_of es) _ e in
    elim (Bool-cases (matches_email (b ∷ bs) && leb (length (b ∷ bs)) 254)) [
      | inr bad ↦ let e2 = rw bad at e1 in cc
      | inl good ↦
          let e2 = rw good at e1 in
          let same_list : (b ∷ bs) ∷ rest ≡ out = cc in
          let (first, others) = subst (All Q) (sym same_list) h in
          (inr first, emails_of-All Q es rest found others)
    ]

All-map :
    (Q : Bytes → Type 0) (g : Bytes → Bytes) (xs : List Bytes)
    → All Q (map g xs)
    → All (λ x. Q (g x)) xs
All-map Q g [] h = tt
All-map Q g (x ∷ xs) (q, h) = (q, All-map Q g xs h)

module _ (lib : Library) (getenv : Bytes → Bytes) where
  -- The parts of BOOTSTRAP_ADMIN_EMAILS.
  abbrev pub asked_parts : List Bytes
  asked_parts = lib.split_commas (getenv (text "BOOTSTRAP_ADMIN_EMAILS"))

  -- What holds of the addresses of the configuration, holds of those of the environment.
  pub load-emails :
      (Q : Bytes → Type 0) (c : Config)
      → load lib getenv ≡ some c
      → All Q c.bootstrap_emails
      → All (λ part. (lib.lower (lib.trim part) ≡ []) ⊎ Q (lib.lower (lib.trim part))) asked_parts
  unfolding load
  load-emails Q c e h =
      let normal : Bytes → Bytes = λ part. lib.lower (lib.trim part) in
      let env = env_or lib getenv (text "APP_ENV") (text "production") in
      let (_, _, e1) = then-eq-some (ensure (is_env env)) _ e in
      let (url, _, e2) = then-eq-some (base_url_of lib getenv (getenv (text "BASE_URL"))) _ e1 in
      let (secrets, _, e3) = then-eq-some (secrets_of lib getenv) _ e2 in
      let (cookies, _, e4) = then-eq-some (cookies_of lib getenv env url) _ e3 in
      let (emails, at_emails, e5) = then-eq-some (emails_of (map normal asked_parts)) _ e4 in
      let (ancestors, _, e6) =
        then-eq-some (frame_ancestors_of (lib.fields (getenv (text "EMBED_FRAME_ANCESTORS")))) _
          e5 in
      let (bounds, _, e7) = then-eq-some (bounds_of lib getenv) _ e6 in
      let same_one : built_config lib getenv url secrets cookies emails ancestors bounds ≡ c = cc in
      All-map (λ x. (x ≡ []) ⊎ Q x) normal asked_parts
        (emails_of-All Q (map normal asked_parts) emails at_emails
          (subst (λ (x : Config). All Q x.bootstrap_emails) (sym same_one) h))
