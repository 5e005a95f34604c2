-- ===== src/Config/Tests.antt =====
-- An environment that is accepted, and one that is refused.
use spin_the_wheel.Prelude.{◌≡◌, refl, true, some, none, [], ◌∷◌, Bytes, text, same, if◌then◌else◌}
use spin_the_wheel.Config.{
  Url, Library, Config, is_env, parse_bool, within, behind, matches_port, matches_rest,
  matches_name, is_ancestor, frame_ancestors_of, emails_of, env_or, env_bool, env_int, base_url_of,
  secrets_of, cookies_of, bounds_of, built_config, load,
}
use spin_the_wheel.Config.Safe.{IsSafe, load-IsSafe}

running : Unit {0}
unfolding is_env parse_bool within behind matches_port matches_rest matches_name is_ancestor
    frame_ancestors_of emails_of env_or env_bool env_int base_url_of secrets_of cookies_of bounds_of
    load same
running = tt

abbrev address : Bytes → Url
address scheme = record { scheme = scheme; host = text "x.fr"; origin = text "origin" }

-- A library that reads no number and no list of addresses.
abbrev library : Bytes → Library
library scheme = record {
  trim = λ s. s;
  trim_slashes = λ s. s;
  lower = λ s. s;
  split_commas = λ s. [];
  fields = λ s. if same s [] then [] else s ∷ [];
  parse_url = λ s. some (address scheme);
  atoi = λ s. none;
}

abbrev environment : Bytes → Bytes → Bytes
environment ancestors key =
    if same key (text "BASE_URL")
    then text "https://x.fr"
    else if same key (text "DATABASE_URL")
    then text "postgres"
    else if same key (text "GOOGLE_CLIENT_ID")
    then text "id"
    else if same key (text "GOOGLE_CLIENT_SECRET")
    then text "secret"
    else if same key (text "IP_HASH_SALT")
    then text "0123456789abcdef"
    else if same key (text "EMBED_FRAME_ANCESTORS")
    then ancestors
    else []

abbrev secrets : Bytes × Bytes × Bytes × Bytes
secrets = (text "postgres", text "id", text "secret", text "0123456789abcdef")

abbrev config : Config
config =
    built_config (library (text "https")) (environment (text "https://*.a.fr:8443"))
      (address (text "https")) secrets (true, true) [] (text "https://*.a.fr:8443" ∷ [])
      (168, 2097152)

loaded : load (library (text "https")) (environment (text "https://*.a.fr:8443")) ≡ some config
unfolding running
loaded = refl

wildcard : load (library (text "https")) (environment (text "*")) ≡ none
unfolding running
wildcard = refl

plain_http : load (library (text "http")) (environment []) ≡ none
unfolding running
plain_http = refl

load-IsSafe_example : IsSafe config
load-IsSafe_example =
    load-IsSafe (library (text "https")) (environment (text "https://*.a.fr:8443")) config loaded
