-- ===== src/Store/Monad.antt =====
-- What every query shares: the clock, the identifiers that uid.New draws, statements that may
-- fail, and transactions. Any statement may fail for any reason (a lost connection, a violated
-- constraint): the stream of faults says which do. Requests run one after the other here, and a
-- transaction is serial. A statement or a COMMIT that fails has no effect: a connection that is lost
-- behind the effect and before the answer is left out.
use spin_the_wheel.Prelude.{ℕ, ◌+◌, Bool, Option, none, some, Bytes, if◌then◌else◌}
use spin_the_wheel.Store.Tables.{Db}

-- ErrNotFound, and any other error of a query.
pub data StoreError : Type 0 where
  not_found failed : StoreError

pub data Result (A : Type 0) : Type 0 where
  ok : A → Result A
  err : StoreError → Result A

pub record World : Type 0 where
  pub db : Db
  pub now : ℕ
  pub uuids : ℕ → Bytes
  pub drawn : ℕ
  pub faults : ℕ → Bool
  pub statements : ℕ

abbrev pub M : Type 0 → Type 0
M A = World → Result A × World

abbrev pub continue : {A B : Type 0} → Result A → (A → M B) → M B
continue (ok a) f w = f a w
continue (err e) f w = (err e, w)

-- An error ends the block.
abbrev pub ◌>>=◌ : {A B : Type 0} → M A → (A → M B) → M B
(step >>= rest) w = continue (step w).0 rest (step w).1

abbrev pub ◌>>◌ : {A B : Type 0} → M A → M B → M B
step >> rest = step >>= λ _. rest

infixl 5 ◌>>=◌ ◌>>◌
abbrev pub pure : {A : Type 0} → A → M A
pure a w = (ok a, w)

abbrev pub throw : {A : Type 0} → StoreError → M A
throw e w = (err e, w)

-- ErrNotFound for an empty result.
abbrev pub or_not_found : {A : Type 0} → Option A → M A
or_not_found none = throw not_found
or_not_found (some a) = pure a

-- uid.New
unfoldable pub new_uid : M Bytes
new_uid w = (ok (w.uuids w.drawn), record w { drawn = w.drawn + 1 })

-- One statement, of the time and the tables.
unfoldable pub exec : {A : Type 0} → (ℕ → Db → A × Db) → M A
exec f w =
    if w.faults w.statements
    then (err failed, record w { statements = w.statements + 1 })
    else (ok (f w.now w.db).0, record w { db = (f w.now w.db).1; statements = w.statements + 1 })

-- A statement that only reads.
abbrev pub query : {A : Type 0} → (ℕ → Db → A) → M A
query f = exec (λ now db. (f now db, db))

-- The world after a statement that changed no table.
abbrev pub counted : World → World
counted w = record w { statements = w.statements + 1 }

-- COMMIT, after the body has succeeded: a failure leaves the tables of the start.
abbrev pub finish : {A : Type 0} → Db → Result A → M A
finish before (err e) w = (err e, record w { db = before })
finish before (ok a) w =
    if w.faults w.statements
    then (err failed, record w { db = before; statements = w.statements + 1 })
    else (ok a, record w { statements = w.statements + 1 })

-- Begin, the body, and then Commit, or the deferred Rollback.
unfoldable pub transaction : {A : Type 0} → M A → M A
transaction m w =
    if w.faults w.statements
    then (err failed, counted w)
    else finish w.db (m (counted w)).0 (m (counted w)).1
