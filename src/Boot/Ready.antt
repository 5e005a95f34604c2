-- ===== src/Boot/Ready.antt =====
-- What holds of a service that listens.
use mathlib.Core.Path.{subst}
use spin_the_wheel.Prelude.{
  ◌≡◌, refl, Bool, true, false, Option, none, some, [], Bytes, Bool-cases, inl, inr, ◌⊎◌, All, text,
  same,
}
use spin_the_wheel.Config.{Library, Config, load}
use spin_the_wheel.Config.Safe.{IsSafe, load-IsSafe}
use spin_the_wheel.Store.Monad.{Result, ok, err}
use spin_the_wheel.Config.Emails.{load-emails}
use spin_the_wheel.Store.Tables.{Db}
use spin_the_wheel.Store.Accounts.{is_listed, bootstrap_allowed_emails}
use spin_the_wheel.Store.Migrations.{migrate}
use spin_the_wheel.Store.Migrations.Once.{pending}
use spin_the_wheel.Store.Migrations.Again.{migrate-none_pending}
use spin_the_wheel.Boot.{
  LogLevel, Machine, listening, allowed, fill_list, prepare, configured, start_up,
}
use spin_the_wheel.Boot.Allowed.{AreListed, bootstrap-AreListed}

module _ (lib : Library) (note : Bytes) where
  -- An address is blank or on the list, in the form in which the list has it.
  abbrev pub IsServed : Db → Bytes → Type 0
  IsServed db e =
      (same (lib.lower (lib.trim e)) [] ≡ true) ⊎ (is_listed (lib.lower (lib.trim e)) db ≡ true)

  -- Every part of BOOTSTRAP_ADMIN_EMAILS, trimmed and in lower case, is empty, or is such an address.
  abbrev pub AreServed : (Bytes → Bytes) → Db → Type 0
  AreServed environment db =
      All (λ part. (lib.lower (lib.trim part) ≡ []) ⊎ IsServed db (lib.lower (lib.trim part)))
        (lib.split_commas (environment (text "BOOTSTRAP_ADMIN_EMAILS")))

  -- The configuration is safe, every migration is applied, and every address of the environment is on
  -- the list.
  pub record IsReady (c : Config) (m : Machine) : Type 0 where
    pub safe : IsSafe c
    pub migrated : pending m.folder m.ledger.versions ≡ []
    pub listed : AreServed m.environment m.world.db

  -- A configuration is safe and has the addresses of the environment.
  record IsLoaded (environment : Bytes → Bytes) (c : Config) : Type 0 where
    safe : IsSafe c
    complete :
        (db : Db)
        → AreListed lib.lower lib.trim note c.bootstrap_emails db
        → AreServed environment db

  same_config :
      (cfg c : Config) (level : LogLevel) (r : Result (Unit {0}))
      → allowed lib note cfg r ≡ listening c level
      → (cfg ≡ c) × (r ≡ ok tt)
  same_config cfg c level (ok u) e = (cc, refl)
  same_config cfg c level (err x) e = cc

  fill_list-IsReady :
      (cfg c : Config) (level : LogLevel) (went : Bool) (m : Machine)
      → IsLoaded m.environment cfg
      → (went ≡ true → pending m.folder m.ledger.versions ≡ [])
      → (fill_list lib note cfg went m).0 ≡ listening c level
      → IsReady c (fill_list lib note cfg went m).1
  unfolding fill_list
  fill_list-IsReady cfg c level false m l migrated e = cc
  fill_list-IsReady cfg c level true m l migrated e =
      let (same_one, succeeded) =
        same_config cfg c level
          (bootstrap_allowed_emails lib.lower lib.trim note cfg.bootstrap_emails m.world).0 e in
      subst (λ (x : Config). IsReady x (fill_list lib note cfg true m).1) same_one
        (record {
          safe = l.safe;
          migrated = migrated refl;
          listed =
              l.complete _ (
                bootstrap-AreListed lib.lower lib.trim note cfg.bootstrap_emails m.world succeeded);
        })

  configured-IsReady :
      (found : Option Config) (c : Config) (level : LogLevel) (m : Machine)
      → ((cfg : Config) → found ≡ some cfg → IsLoaded m.environment cfg)
      → (configured lib note found m).0 ≡ listening c level
      → IsReady c (configured lib note found m).1
  unfolding prepare
  configured-IsReady none c level m safe e = cc
  configured-IsReady (some cfg) c level m safe e = elim (Bool-cases (m.make_folder cfg.image_dir)) [
    | inr failed ↦ let e' = rw failed at e in cc
    | inl made ↦ elim (Bool-cases (m.connect cfg.database_url)) [
      | inr failed ↦ let e' = rw (made, failed) at e in cc
      | inl connected ↦
          rw (made, connected)
            (fill_list-IsReady cfg c level (migrate m.folder m.ledger).0
              (record m { ledger = (migrate m.folder m.ledger).1 }) (safe cfg refl)
              (migrate-none_pending m.folder m.ledger) (rw (made, connected) at e))
    ]
  ]

  -- Whatever the environment and whatever fails, a service that listens has a safe configuration, a
  -- database to which every migration is applied, and an allow list with every address of
  -- BOOTSTRAP_ADMIN_EMAILS that is not blank, trimmed and in lower case.
  pub start_up-IsReady :
      (m : Machine) (c : Config) (level : LogLevel)
      → (start_up lib note m).0 ≡ listening c level
      → IsReady c (start_up lib note m).1
  unfolding start_up
  start_up-IsReady m c level e =
      configured-IsReady (load lib m.environment) c level m
        (λ cfg found. record {
          safe = load-IsSafe lib m.environment cfg found;
          complete = λ db h. load-emails lib m.environment (IsServed db) cfg found h;
        })
        e
