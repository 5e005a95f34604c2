-- ===== src/Store/Runs.antt =====
-- Inversion of successful and of failed runs, one lemma for each way to build an action.
use spin_the_wheel.Prelude.{
  ℕ, ◌+◌, Option, none, some, ◌≡◌, refl, ap, ◌∙◌, Bool-cases, inl, inr, arith,
}
use spin_the_wheel.Store.Tables.{Db}
use spin_the_wheel.Store.Monad.{
  StoreError, failed, Result, ok, err, World, M, continue, ◌>>=◌, pure, or_not_found, exec, query,
  transaction, finish, counted,
}

continue-eq-ok :
    {A B : Type 0} (r : Result A) (f : A → M B) (w : World) {b : B}
    → (continue r f w).0 ≡ ok b
    → (a : A) × (r ≡ ok a) × (continue r f w ≡ f a w)
continue-eq-ok (ok a) f w e = (a, refl, refl)
continue-eq-ok (err x) f w e = cc

-- A block that succeeds has a first part that succeeds, and goes on with its result.
pub bind-eq-ok :
    {A B : Type 0} (m : M A) (f : A → M B) (w : World) {b : B}
    → ((m >>= f) w).0 ≡ ok b
    → (a : A) × ((m w).0 ≡ ok a) × ((m >>= f) w ≡ f a (m w).1)
bind-eq-ok m f w e = continue-eq-ok (m w).0 f (m w).1 e

-- What a successful statement returns, and the world that it leaves.
abbrev pub after_exec : {A : Type 0} → (ℕ → Db → A × Db) → World → World
after_exec f w = record w { db = (f w.now w.db).1; statements = w.statements + 1 }

pub exec-eq-ok :
    {A : Type 0} (f : ℕ → Db → A × Db) (w : World) {a : A}
    → (exec f w).0 ≡ ok a
    → ((f w.now w.db).0 ≡ a) × ((exec f w).1 ≡ after_exec f w)
unfolding exec
exec-eq-ok f w e = elim (Bool-cases (w.faults w.statements)) [
  | inl fault ↦ let e' = rw (fault, exec) at e in cc
  | inr fine ↦ let e' = rw (fine, exec) at e in (cc, rw fine)
]

-- A statement that fails leaves the tables as they were.
pub db-exec-eq-err :
    {A : Type 0} (f : ℕ → Db → A × Db) (w : World) {x : StoreError}
    → (exec f w).0 ≡ err x
    → (x ≡ failed) × ((exec f w).1.db ≡ w.db)
unfolding exec
db-exec-eq-err f w e = elim (Bool-cases (w.faults w.statements)) [
  | inl fault ↦ let e' = rw (fault, exec) at e in (cc, rw fault)
  | inr fine ↦ let e' = rw (fine, exec) at e in cc
]

-- A query never changes the tables.
pub db-query : {A : Type 0} (f : ℕ → Db → A) (w : World) → (query f w).1.db ≡ w.db
unfolding exec
db-query f w = ground arith

pub or_not_found-eq-ok :
    {A : Type 0} (o : Option A) (w : World) {a : A} → (or_not_found o w).0 ≡ ok a → o ≡ some a
or_not_found-eq-ok none w e = cc
or_not_found-eq-ok (some b) w e = cc

pub world-or_not_found : {A : Type 0} (o : Option A) (w : World) → (or_not_found o w).1 ≡ w
world-or_not_found none w = refl
world-or_not_found (some b) w = refl

module _ {A : Type 0} (before : Db) where
  finish-eq-err :
      (r : Result A) (v : World) (x : StoreError)
      → (finish before r v).0 ≡ err x
      → (finish before r v).1.db ≡ before
  finish-eq-err (err y) v x e = refl
  finish-eq-err (ok a) v x e = elim (Bool-cases (v.faults v.statements)) [
    | inl fault ↦ rw fault
    | inr fine ↦ let e' = rw fine at e in cc
  ]

  finish-eq-ok :
      (r : Result A) (v : World) (a : A)
      → (finish before r v).0 ≡ ok a
      → (r ≡ ok a) × ((finish before r v).1.db ≡ v.db)
  finish-eq-ok (err y) v a e = cc
  finish-eq-ok (ok b) v a e = elim (Bool-cases (v.faults v.statements)) [
    | inl fault ↦ let e' = rw fault at e in cc
    | inr fine ↦ let e' = rw fine at e in (cc, rw fine)
  ]

-- A transaction that fails, at whatever statement, leaves the tables of its start.
pub transaction-eq-err :
    {A : Type 0} (m : M A) (w : World) (x : StoreError)
    → (transaction m w).0 ≡ err x
    → (transaction m w).1.db ≡ w.db
unfolding transaction
transaction-eq-err m w x e = elim (Bool-cases (w.faults w.statements)) [
  | inl fault ↦ rw fault
  | inr fine ↦ rw fine (finish-eq-err w.db (m (counted w)).0 (m (counted w)).1 x (rw fine at e))
]

-- One that succeeds leaves the tables of its body.
pub transaction-eq-ok :
    {A : Type 0} (m : M A) (w : World) (a : A)
    → (transaction m w).0 ≡ ok a
    → ((m (counted w)).0 ≡ ok a) × ((transaction m w).1.db ≡ (m (counted w)).1.db)
unfolding transaction
transaction-eq-ok m w a e = elim (Bool-cases (w.faults w.statements)) [
  | inl fault ↦ let e' = rw fault at e in cc
  | inr fine ↦ rw fine (finish-eq-ok w.db (m (counted w)).0 (m (counted w)).1 a (rw fine at e))
]

-- A property of worlds that every part of a block keeps, whether it succeeds or not.
continue-keeps :
    {A B : Type 0} (P : World → Type 0) (r : Result A) (f : A → M B) (w : World)
    → P w
    → ((a : A) → P (f a w).1)
    → P (continue r f w).1
continue-keeps P (ok a) f w h k = k a
continue-keeps P (err x) f w h k = h

pub bind-keeps :
    {A B : Type 0} (P : World → Type 0) (m : M A) (f : A → M B) (w : World)
    → P (m w).1
    → ((a : A) (v : World) → P v → P (f a v).1)
    → P ((m >>= f) w).1
bind-keeps P m f w h k = continue-keeps P (m w).0 f (m w).1 h (λ a. k a (m w).1 h)

pub exec-keeps :
    {A : Type 0} (P : World → Type 0) (f : ℕ → Db → A × Db) (w : World)
    → P (counted w)
    → P (after_exec f w)
    → P (exec f w).1
unfolding exec
exec-keeps P f w h k = elim (Bool-cases (w.faults w.statements)) [
  | inl fault ↦ rw fault h
  | inr fine ↦ rw fine k
]

-- A statement that must find a row, and what is done with the row.
pub found-eq-ok :
    {A B : Type 0} (f : ℕ → Db → Option A × Db) (k : A → M B) (w : World) {b : B}
    → ((exec f >>= λ o. or_not_found o >>= k) w).0 ≡ ok b
    → (a : A) × ((f w.now w.db).0 ≡ some a)
      × ((exec f >>= λ o. or_not_found o >>= k) w ≡ k a (after_exec f w))
found-eq-ok f k w e =
    let (o, run, first) = bind-eq-ok (exec f) (λ o. or_not_found o >>= k) w e in
    let (row, world) = exec-eq-ok f w run in
    let (a, found, second) = bind-eq-ok (or_not_found o) k (exec f w).1 (rw first at e) in
    (
      a,
      row ∙ or_not_found-eq-ok o (exec f w).1 found,
      first ∙ second ∙ ap (k a) (world-or_not_found o (exec f w).1 ∙ world),
    )

-- A last statement, whose result is known before.
pub last-eq-ok :
    {A B : Type 0} (f : ℕ → Db → A × Db) (b c : B) (w : World)
    → ((exec f >>= λ _. pure b) w).0 ≡ ok c
    → (b ≡ c) × (((exec f >>= λ _. pure b) w).1 ≡ after_exec f w)
last-eq-ok {A = A} {B = B} f b c w e =
    let (a, run, whole) = bind-eq-ok (exec f) (λ _. pure b) w e in
    let (_, world) = exec-eq-ok f w run in
    let e' = rw whole at e in (cc, ap (λ (x : Result B × World). x.1) whole ∙ world)
