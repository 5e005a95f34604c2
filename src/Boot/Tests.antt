-- ===== src/Boot/Tests.antt =====
-- A start that succeeds, one that stops, and the probe of health.
use spin_the_wheel.Prelude.{
  ◌≡◌, refl, Bool, true, false, none, some, [], ◌∷◌, Bytes, text, same, sort_by, bytes_ltb,
  if◌then◌else◌,
}
use spin_the_wheel.Config.{
  Url, Library, Config, is_env, parse_bool, within, frame_ancestors_of, emails_of, env_or, env_bool,
  env_int, base_url_of, secrets_of, cookies_of, bounds_of, built_config, load,
}
use spin_the_wheel.Api.Validate.Email.{
  is_letter, is_domain, is_local, matches_top, matches_domain, matches_host, matches_local,
  matches_email,
}
use spin_the_wheel.Store.Monad.{new_uid, exec}
use spin_the_wheel.Store.Accounts.{is_listed, bootstrap_allowed_emails}
use spin_the_wheel.Store.Migrations.{
  is_stem, is_migration_name, gathered, run_batch, migrate_one, migrate_all, migrate,
}
use spin_the_wheel.Boot.{
  info_level, warn_level, Machine, stopped, image_folder, listening, log_level, fill_list, prepare,
  start_up, asked, end_run, health_address, run_healthcheck, main,
}
use spin_the_wheel.Boot.Ready.{IsReady, start_up-IsReady}

running : Unit {0}
unfolding is_env parse_bool within frame_ancestors_of emails_of env_or env_bool env_int base_url_of
    secrets_of cookies_of bounds_of load new_uid exec is_listed bootstrap_allowed_emails is_stem
    is_migration_name gathered run_batch migrate_one migrate_all migrate log_level fill_list prepare
    start_up end_run health_address run_healthcheck main same sort_by bytes_ltb matches_email
    matches_local matches_host matches_domain matches_top is_local is_domain is_letter
running = tt

abbrev address : Url
address = record { scheme = text "https"; host = text "x.fr"; origin = text "https://x.fr" }

abbrev library : Library
library = record {
  trim = λ s. s;
  trim_slashes = λ s. s;
  lower = λ s. s;
  split_commas = λ s. s ∷ [];
  fields = λ s. [];
  parse_url = λ s. some address;
  atoi = λ s. none;
}

abbrev environment : Bytes → Bytes
environment key =
    if same key (text "BASE_URL")
    then text "https://x.fr"
    else if same key (text "DATABASE_URL")
    then text "postgres"
    else if same key (text "GOOGLE_CLIENT_ID")
    then text "id"
    else if same key (text "GOOGLE_CLIENT_SECRET")
    then text "secret"
    else if same key (text "IP_HASH_SALT")
    then text "0123456789abcdef"
    else if same key (text "BOOTSTRAP_ADMIN_EMAILS")
    then text "a@b.fr"
    else []

abbrev config : Config
config =
    built_config library environment address
      (text "postgres", text "id", text "secret", text "0123456789abcdef") (true, true)
      (text "a@b.fr" ∷ []) (text "https://digipad.app" ∷ text "https://*.digipad.app" ∷ [])
      (168, 2097152)

abbrev machine : Bool → Machine
machine made = record {
  environment = environment;
  make_folder = λ path. made;
  connect = λ url. true;
  folder = record {
    entries = some ((text "0001_a.sql", false) ∷ []);
    read = λ name. some (text "A");
  };
  ledger = record { versions = []; scripts = []; faults = λ n. false; statements = 0 };
  world = record {
    db = record {
      users = [];
      allowed_emails = [];
      sessions = [];
      oauth_states = [];
      images = [];
      wheels = [];
      segments = [];
      spins = [];
      audit_log = [];
    };
    now = 0;
    uuids = λ n. n ∷ [];
    drawn = 0;
    faults = λ n. false;
    statements = 0;
  };
}

started : (start_up library [] (machine true)).0 ≡ listening config info_level
unfolding running
started = refl

bootstrapped : is_listed (text "a@b.fr") (start_up library [] (machine true)).1.world.db ≡ true
unfolding running
bootstrapped = refl

applied : (start_up library [] (machine true)).1.ledger.versions ≡ text "0001_a.sql" ∷ []
unfolding running
applied = refl

without_folder : (start_up library [] (machine false)).0 ≡ stopped image_folder
unfolding running
without_folder = refl

probed :
    run_healthcheck
      (λ url. if same url (text "http://127.0.0.1:8080/healthz") then some 200 else none)
      (λ key. [])
    ≡ 0
unfolding running
probed = refl

warned : log_level library (text "warning") ≡ warn_level
unfolding running
warned = refl

ended : main library [] (λ url. none) false (asked true) (machine true) ≡ 0
unfolding running
ended = refl

start_up-IsReady_example : IsReady library [] config (start_up library [] (machine true)).1
start_up-IsReady_example = start_up-IsReady library [] (machine true) config info_level started
