-- ===== src/Store/Spins/Recording.antt =====
-- What an insertion of a spin, the count of the last ones and an audit entry do to the tables.
use spin_the_wheel.Prelude.{
  List, refl, ℕ, ◌≡◌, ap, [], ◌∷◌, ◌++◌, Bytes, length, select, ◌⊎◌, Bool-cases, inl, inr,
}
use spin_the_wheel.Utf8.{truncate}
use spin_the_wheel.Store.Tables.{Db, SpinRow, AuditRow}
use spin_the_wheel.Store.Monad.{StoreError, ok, err, World, new_uid, exec}
use spin_the_wheel.Store.Runs.{last-eq-ok, after_exec, exec-eq-ok}
use spin_the_wheel.Store.Accounts.{null_uuid}
use spin_the_wheel.Store.Spins.{
  hash_or_null, spin_row, insert_spin, is_recent_spin, count_spins_since,
}
use spin_the_wheel.Store.Audit.{AuditEntry, audit_row, audit}

-- The row of a spin, under the identifier that the world draws next.
unfoldable pub new_spin : Bytes → Bytes → ℕ → Bytes → Bytes → Bytes → World → SpinRow
new_spin wheel segment index label hash user_agent w =
    spin_row (w.uuids w.drawn) wheel (null_uuid segment) index label (hash_or_null hash)
      (truncate user_agent 512) w.now

-- It depends on the clock and the next identifier alone.
pub new_spin-moved :
    (wheel segment : Bytes) (index : ℕ) (label hash user_agent : Bytes) (w v : World)
    → v.now ≡ w.now
    → v.uuids v.drawn ≡ w.uuids w.drawn
    → new_spin wheel segment index label hash user_agent v
      ≡ new_spin wheel segment index label hash user_agent w
unfolding new_spin
new_spin-moved wheel segment index label hash user_agent w v same_now same_next =
    rw (same_now, same_next)

pub insert_spin-eq-ok :
    (wheel segment : Bytes) (index : ℕ) (label hash user_agent : Bytes) (w : World) (id : Bytes)
    → (insert_spin wheel segment index label hash user_agent w).0 ≡ ok id
    → (w.uuids w.drawn ≡ id)
      × ((insert_spin wheel segment index label hash user_agent w).1.db.spins
          ≡ w.db.spins ++ new_spin wheel segment index label hash user_agent w ∷ [])
      × ((insert_spin wheel segment index label hash user_agent w).1.db.audit_log ≡ w.db.audit_log)
unfolding insert_spin new_uid new_spin
insert_spin-eq-ok wheel segment index label hash user_agent w id e =
    let (same_id, world) = last-eq-ok _ (w.uuids w.drawn) id (new_uid w).1 e in
    (same_id, ap (λ (v : World). v.db.spins) world, ap (λ (v : World). v.db.audit_log) world)

pub db-insert_spin-eq-err :
    (wheel segment : Bytes) (index : ℕ) (label hash user_agent : Bytes) (w : World) (x : StoreError)
    → (insert_spin wheel segment index label hash user_agent w).0 ≡ err x
    → (insert_spin wheel segment index label hash user_agent w).1.db ≡ w.db
unfolding insert_spin new_uid exec
db-insert_spin-eq-err wheel segment index label hash user_agent w x e =
    elim (Bool-cases (w.faults w.statements)) [
      | inl fault ↦ rw fault
      | inr fine ↦ let e' = rw fine at e in cc
    ]

pub count_spins_since-eq-ok :
    (wheel : Bytes) (since : ℕ) (w : World) (n : ℕ)
    → (count_spins_since wheel since w).0 ≡ ok n
    → (length (select (is_recent_spin wheel since w.now) w.db.spins) ≡ n)
      × ((count_spins_since wheel since w).1 ≡ after_exec (λ now db. (n, db)) w)
unfolding count_spins_since
count_spins_since-eq-ok wheel since w n e =
    exec-eq-ok (λ now (db : Db). (length (select (is_recent_spin wheel since now) db.spins), db)) w
      e

-- An audit entry, written or not, leaves the spins.
pub spins-audit : (e : AuditEntry) (w : World) → (audit e w).1.db.spins ≡ w.db.spins
unfolding audit new_uid exec
spins-audit e w = elim (Bool-cases (w.faults w.statements)) [
  | inl fault ↦ rw fault
  | inr fine ↦ rw fine
]

-- The log of a world that has tried to write an entry: it has one row more, or is the same.
abbrev pub Logged : AuditEntry → List AuditRow → List AuditRow → Type 0
Logged e before after =
    (after ≡ before)
    ⊎ ((row : AuditRow) × (after ≡ before ++ row ∷ []) × (row.ip ≡ e.ip) × (row.action ≡ e.action))

pub audit_log-audit :
    (e : AuditEntry) (w : World) → Logged e w.db.audit_log (audit e w).1.db.audit_log
unfolding audit new_uid exec
audit_log-audit e w = elim (Bool-cases (w.faults w.statements)) [
  | inl fault ↦ inl (rw fault)
  | inr fine ↦ rw fine (
      inr (
        audit_row (w.uuids w.drawn) e (null_uuid e.actor_id) (null_uuid e.entity_id) w.now,
        refl,
        refl,
        refl,
      ))
]
