-- ===== src/Boot.antt =====
-- The start and the end of the program: `main`, `run` and `runHealthcheck` of backend/cmd/server/main.go,
-- and the level of `New` of backend/internal/logging/logging.go. The directory, the connection to the database
-- and the listener are parameters; log lines are left out.
pub mod Allowed
pub mod Ready
mod Tests
use spin_the_wheel.Prelude.{
  ℕ, Bool, true, false, Option, none, some, List, [], ◌∷◌, ◌++◌, Bytes, text, same, ◌==◌, ◌||◌,
  if◌then◌else◌,
}
use spin_the_wheel.Config.{Library, Config, load}
use spin_the_wheel.Store.Monad.{Result, ok, err, World}
use spin_the_wheel.Store.Accounts.{bootstrap_allowed_emails}
use spin_the_wheel.Store.Migrations.{Folder, Ledger, migrate}

pub data LogLevel : Type 0 where
  debug_level info_level warn_level error_level : LogLevel

-- The level of `logging.New`, of a text that is trimmed and in lower case.
abbrev pub level_named : Bytes → LogLevel
level_named name =
    if same name (text "debug")
    then debug_level
    else if same name (text "warn") || same name (text "warning")
    then warn_level
    else if same name (text "error")
    then error_level
    else info_level

unfoldable pub log_level : Library → Bytes → LogLevel
log_level lib level = level_named (lib.lower (lib.trim level))

-- The steps of `run` that can end it, in their order.
pub data Failure : Type 0 where
  configuration image_folder database migrations allow_list listener shutdown : Failure

pub record Machine : Type 0 where
  pub environment : Bytes → Bytes
  pub make_folder : Bytes → Bool
  pub connect : Bytes → Bool
  pub folder : Folder
  pub ledger : Ledger
  pub world : World

-- What the start ends in: an error, or a service that listens.
pub data Start : Type 0 where
  stopped : Failure → Start
  listening : Config → LogLevel → Start

module _ (lib : Library) (note : Bytes) where
  abbrev pub allowed : Config → Result (Unit {0}) → Start
  allowed cfg (ok u) = listening cfg (log_level lib cfg.log_level)
  allowed cfg (err e) = stopped allow_list

  -- Behind the migrations: the addresses of the environment.
  unfoldable pub fill_list : Config → Bool → Machine → Start × Machine
  unfolding bootstrap_allowed_emails
  fill_list cfg false m = (stopped migrations, m)
  fill_list cfg true m =
      let (result, w) =
        bootstrap_allowed_emails lib.lower lib.trim note cfg.bootstrap_emails m.world in
      (allowed cfg result, record m { world = w })

  -- Behind the configuration.
  unfoldable pub prepare : Config → Machine → Start × Machine
  unfolding fill_list migrate
  prepare cfg m =
      if m.make_folder cfg.image_dir
      then (if m.connect cfg.database_url
          then (let (went, l) = migrate m.folder m.ledger in
              fill_list cfg went (record m { ledger = l }))
          else (stopped database, m))
      else (stopped image_folder, m)

  abbrev pub configured : Option Config → Machine → Start × Machine
  configured none m = (stopped configuration, m)
  configured (some cfg) m = prepare cfg m

  -- `run`, up to its listener.
  unfoldable pub start_up : Machine → Start × Machine
  unfolding prepare load
  start_up m = configured (load lib m.environment) m

-- How the service ends: the listener fails, or a signal asks for the shutdown, which succeeds or not.
pub data Ending : Type 0 where
  listener_failed : Ending
  asked : Bool → Ending

-- The rest of `run`, its error where it has one.
unfoldable pub end_run : Ending → Option Failure
end_run listener_failed = some listener
end_run (asked true) = none
end_run (asked false) = some shutdown

-- `runHealthcheck`, with the status that a GET has, where it has one.
abbrev pub with_default : Bytes → Bytes
with_default [] = text ":8080"
with_default (b ∷ bs) = b ∷ bs

abbrev pub with_host : Bytes → Bytes
with_host [] = []
with_host (b ∷ bs) = if b == 0x3a then text "127.0.0.1" ++ b ∷ bs else b ∷ bs

unfoldable pub health_address : Bytes → Bytes
health_address addr = text "http://" ++ (with_host (with_default addr) ++ text "/healthz")

abbrev pub health_code : Option ℕ → ℕ
health_code none = 1
health_code (some status) = if status == 200 then 0 else 1

unfoldable pub run_healthcheck : (Bytes → Option ℕ) → (Bytes → Bytes) → ℕ
unfolding health_address
run_healthcheck fetch environment =
    health_code (fetch (health_address (environment (text "HTTP_ADDR"))))

-- `main`: the code of the exit.
abbrev pub run_code : Start → Ending → ℕ
run_code (stopped f) e = 1
run_code (listening cfg level) e = elim (end_run e) [ none ↦ 0 | some f ↦ 1 ]

unfoldable pub main : Library → Bytes → (Bytes → Option ℕ) → Bool → Ending → Machine → ℕ
unfolding start_up end_run run_healthcheck
main lib note fetch healthcheck ending m =
    if healthcheck
    then run_healthcheck fetch m.environment
    else run_code (start_up lib note m).0 ending
