-- ===== src/Boot/Allowed.antt =====
-- A bootstrap that succeeds has put every address on the list.
use mathlib.Core.Path.{subst}
use spin_the_wheel.Prelude.{
  ℕ, none, sym, ap, ◌∙◌, ◌≡◌, refl, ◌⊎◌, inl, inr, Bool, true, false, List, [], ◌∷◌, ◌++◌, Bytes,
  same, same_refl, any, All, Bool-cases,
}
use spin_the_wheel.Store.Tables.{Db, AllowedRow}
use spin_the_wheel.Store.Monad.{Result, ok, World, new_uid, exec}
use spin_the_wheel.Store.Runs.{bind-eq-ok, exec-eq-ok, bind-keeps, exec-keeps, after_exec}
use spin_the_wheel.Store.Accounts.{is_listed, insert_allowed_if_new, bootstrap_allowed_emails}

any-append :
    (p : AllowedRow → Bool) (xs ys : List AllowedRow) → any p xs ≡ true → any p (xs ++ ys) ≡ true
any-append p [] ys e = cc
any-append p (x ∷ xs) ys e = elim (Bool-cases (p x)) [
  | inl here ↦ rw here refl
  | inr there ↦ rw there (any-append p xs ys (rw there at e))
]

any_last :
    (p : AllowedRow → Bool) (xs : List AllowedRow) (x : AllowedRow)
    → p x ≡ true
    → any p (xs ++ x ∷ []) ≡ true
any_last p [] x e = rw e refl
any_last p (y ∷ ys) x e = elim (Bool-cases (p y)) [
  | inl here ↦ rw here refl
  | inr there ↦ rw there (any_last p ys x e)
]

keeps_listed :
    (email : Bytes) (row : AllowedRow) (db : Db)
    → is_listed email db ≡ true
    → is_listed email (insert_allowed_if_new row db).1 ≡ true
unfolding is_listed
keeps_listed email row db e = elim (Bool-cases (is_listed row.email db)) [
  | inl known ↦ rw known e
  | inr new ↦
      rw new (any-append (λ (r : AllowedRow). same r.email email) db.allowed_emails (row ∷ []) e)
]

lists_row :
    (row : AllowedRow) (db : Db) → is_listed row.email (insert_allowed_if_new row db).1 ≡ true
unfolding is_listed
lists_row row db = elim (Bool-cases (is_listed row.email db)) [
  | inl known ↦ rw known known
  | inr new ↦ rw new (
      any_last (λ (r : AllowedRow). same r.email row.email) db.allowed_emails row
        (same_refl row.email))
]

module _ (lower trim : Bytes → Bytes) (note : Bytes) where
  abbrev row_of : Bytes → Bytes → ℕ → AllowedRow
  row_of email id now = record {
    id = id;
    email = email;
    note = note;
    added_by = none;
    created_at = now;
  }

  bootstrap_keeps :
      (email : Bytes) (emails : List Bytes) (w : World)
      → is_listed email w.db ≡ true
      → is_listed email (bootstrap_allowed_emails lower trim note emails w).1.db ≡ true
  unfolding bootstrap_allowed_emails new_uid
  bootstrap_keeps email [] w h = h
  bootstrap_keeps email (e ∷ emails) w h = elim (Bool-cases (same (lower (trim e)) [])) [
    | inl blank ↦ rw blank (bootstrap_keeps email emails w h)
    | inr given ↦ rw given (
        bind-keeps (λ (x : World). is_listed email x.db ≡ true)
          (exec λ now db. insert_allowed_if_new (row_of (lower (trim e)) (w.uuids w.drawn) now) db)
          (λ u. bootstrap_allowed_emails lower trim note emails) (new_uid w).1
          (exec-keeps (λ (x : World). is_listed email x.db ≡ true)
            (λ now db. insert_allowed_if_new (row_of (lower (trim e)) (w.uuids w.drawn) now) db)
            (new_uid w).1 h
            (keeps_listed email (row_of (lower (trim e)) (w.uuids w.drawn) w.now) w.db h))
          λ u x k. bootstrap_keeps email emails x k)
  ]

  abbrev addition : Bytes → World → ℕ → Db → Unit {0} × Db
  addition e w now db = insert_allowed_if_new (row_of (lower (trim e)) (w.uuids w.drawn) now) db

  -- One round of a run that succeeds.
  round :
      (e : Bytes) (emails : List Bytes) (w : World)
      → same (lower (trim e)) [] ≡ false
      → (bootstrap_allowed_emails lower trim note (e ∷ emails) w).0 ≡ ok tt
      → bootstrap_allowed_emails lower trim note (e ∷ emails) w
        ≡ bootstrap_allowed_emails lower trim note emails (after_exec (addition e w) (new_uid w).1)
  unfolding bootstrap_allowed_emails new_uid
  round e emails w given h =
      let rest = λ (u : Unit {0}). bootstrap_allowed_emails lower trim note emails in
      let (u, ran, whole) = bind-eq-ok (exec (addition e w)) rest (new_uid w).1 (rw given at h) in
      let (_, world) = exec-eq-ok (addition e w) (new_uid w).1 ran in
      rw given (whole ∙ ap (bootstrap_allowed_emails lower trim note emails) world)

  abbrev pub AreListed : List Bytes → Db → Type 0
  AreListed emails db =
      All (λ e. (same (lower (trim e)) [] ≡ true) ⊎ (is_listed (lower (trim e)) db ≡ true)) emails

  skipped :
      (e : Bytes) (emails : List Bytes) (w : World)
      → same (lower (trim e)) [] ≡ true
      → bootstrap_allowed_emails lower trim note (e ∷ emails) w
        ≡ bootstrap_allowed_emails lower trim note emails w
  unfolding bootstrap_allowed_emails
  skipped e emails w blank = rw blank refl

  -- Where it succeeds, every address that is not blank is on the list.
  pub bootstrap-AreListed :
      (emails : List Bytes) (w : World)
      → (bootstrap_allowed_emails lower trim note emails w).0 ≡ ok tt
      → AreListed emails (bootstrap_allowed_emails lower trim note emails w).1.db
  unfolding new_uid
  bootstrap-AreListed [] w h = tt
  bootstrap-AreListed (e ∷ emails) w h = elim (Bool-cases (same (lower (trim e)) [])) [
    | inl blank ↦
        let same_run = skipped e emails w blank in
        subst (λ (x : Result (Unit {0}) × World). AreListed (e ∷ emails) x.1.db) (sym same_run)
          (
            inl blank,
            bootstrap-AreListed emails w
                (ap (λ (x : Result (Unit {0}) × World). x.0) (sym same_run) ∙ h),
          )
    | inr given ↦
        let same_run = round e emails w given h in
        let v = after_exec (addition e w) (new_uid w).1 in
        subst (λ (x : Result (Unit {0}) × World). AreListed (e ∷ emails) x.1.db) (sym same_run)
          (
            inr (
                bootstrap_keeps (lower (trim e)) emails v
                  (lists_row (row_of (lower (trim e)) (w.uuids w.drawn) w.now) w.db)),
            bootstrap-AreListed emails v
                (ap (λ (x : Result (Unit {0}) × World). x.0) (sym same_run) ∙ h),
          )
  ]
