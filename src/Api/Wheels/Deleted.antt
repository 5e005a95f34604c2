-- ===== src/Api/Wheels/Deleted.antt =====
-- A wheel that `deleteWheel` has deleted is public no more.
use spin_the_wheel.Prelude.{
  ℕ, ◌≡◌, ◌≢◌, ◌≤◌, ap, ◌∙◌, List, some, Bytes, text, Bool-cases, inl, inr,
}
use spin_the_wheel.Uid.{parse}
use spin_the_wheel.Store.Tables.{wheel_deleted}
use spin_the_wheel.Store.Monad.{ok, World, new_uid, exec}
use spin_the_wheel.Store.Wheels.{Wheel, soft_delete_wheel}
use spin_the_wheel.Store.Segments.{Segment, get_public_wheel}
use spin_the_wheel.Store.Segments.Withdrawn.{count_of, deleted_wheel_withdrawn}
use spin_the_wheel.Store.Accounts.{User}
use spin_the_wheel.Store.Audit.{AuditEntry, audit}
use spin_the_wheel.Api.Reply.{
  Response, reply, Handler, Request, found_or_internal, answer, attempt, entry, audited,
  attempt-eq-reply,
}
use spin_the_wheel.Api.Wheels.{delete_wheel}

wheels-audit : (e : AuditEntry) (w : World) → (audit e w).1.db.wheels ≡ w.db.wheels
unfolding audit new_uid exec
wheels-audit e w = elim (Bool-cases (w.faults w.statements)) [
  | inl fault ↦ rw fault
  | inr fine ↦ rw fine
]

abbrev deletion : (Bytes → AuditEntry) → User → Bytes → Handler (Unit {0})
deletion log u id =
    attempt (soft_delete_wheel id u.id) found_or_internal λ _. audited (log id) (answer 200 tt)

deletion-withdraws :
    (log : Bytes → AuditEntry) (u : User) (w w' : World) (id : Bytes) (view : Wheel × List Segment)
    (st : ℕ)
    → count_of id w.db.wheels ≤ 1
    → (deletion log u id w).0 ≡ reply st tt
    → w'.db.wheels ≡ (deletion log u id w).1.db.wheels
    → (get_public_wheel id w').0 ≢ ok view
deletion-withdraws log u w w' id view st once e same_wheels =
    let (done, deleted, whole) =
      attempt-eq-reply (soft_delete_wheel id u.id) found_or_internal
        (λ _. audited (log id) (answer 200 tt)) w e in
    deleted_wheel_withdrawn id u.id w w' view once deleted (
      same_wheels
      ∙ ap (λ (p : Response (Unit {0}) × World). p.1.db.wheels) whole
      ∙ wheels-audit (log id) (soft_delete_wheel id u.id w).1)

-- After `deleteWheel` has replied, on tables where the identifier of the path is that of one wheel at
-- most, no read of the public wheel of that path succeeds at any time while the wheels are those that
-- it left, whether the audit entry was written or not.
pub delete_wheel-withdraws :
    (sha256 : Bytes → Bytes) (salt : Bytes) (u : User) (q : Request) (w w' : World) (id : Bytes)
    (view : Wheel × List Segment) (st : ℕ)
    → parse q.path_id ≡ some id
    → count_of id w.db.wheels ≤ 1
    → (delete_wheel sha256 salt u q w).0 ≡ reply st tt
    → w'.db.wheels ≡ (delete_wheel sha256 salt u q w).1.db.wheels
    → (get_public_wheel id w').0 ≢ ok view
unfolding delete_wheel
delete_wheel-withdraws sha256 salt u q w w' id view st parsed once e same_wheels =
    deletion-withdraws (λ i. entry sha256 salt q u.id wheel_deleted (text "wheel") i) u w w' id view
      st once (rw parsed at e) (rw parsed at same_wheels)
