-- ===== src/Store/Migrations/Again.antt =====
-- A second run of the migrations.
use spin_the_wheel.Prelude.{
  ◌≡◌, refl, sym, ap, ◌∙◌, Bool, true, false, not, ◌||◌, Option, none, some, List, [], ◌∷◌, ◌++◌,
  append-nil, Bytes, same, same_refl, All, select, sort_by, if◌then◌else◌,
}
use spin_the_wheel.Store.Migrations.{Folder, Ledger, contains, by_name, gathered_names, migrate}
use spin_the_wheel.Store.Migrations.Once.{pending_of, pending, scripts_of, migrate-IsRun}

contains-append :
    (xs ys : List Bytes) (n : Bytes) → contains (xs ++ ys) n ≡ (contains xs n || contains ys n)
contains-append [] ys n = refl
contains-append (x ∷ xs) ys n =
    rw (contains-append xs ys n) (or_assoc (same n x) (contains xs n) (contains ys n))
  where
    or_assoc : (a b c : Bool) → (a || (b || c)) ≡ ((a || b) || c)
    or_assoc true b c = refl
    or_assoc false b c = refl

contains_cons : (x : Bytes) (xs : List Bytes) → contains (x ∷ xs) x ≡ true
contains_cons x xs = rw (same_refl x)

All_weaken :
    {A : Type 0} {P Q : A → Type 0} (xs : List A) → ((a : A) → P a → Q a) → All P xs → All Q xs
All_weaken [] f h = tt
All_weaken (x ∷ xs) f (p, h) = (f x p, All_weaken xs f h)

select-none : (p : Bytes → Bool) (xs : List Bytes) → All (λ n. p n ≡ false) xs → select p xs ≡ []
select-none p [] h = refl
select-none p (x ∷ xs) (e, h) = rw e (select-none p xs h)

or_later : (a b c : Bool) → (a || c) ≡ true → (a || (b || c)) ≡ true
or_later true b c e = refl
or_later false true c e = refl
or_later false false c e = e

covers_step :
    (v : List Bytes) (x : Bytes) (xs ys : List Bytes) (known : Bool)
    → contains v x ≡ known
    → All (λ n. (contains v n || contains ys n) ≡ true) xs
    → All (λ n. (contains v n || contains (if not known then x ∷ ys else ys) n) ≡ true) (x ∷ xs)
covers_step v x xs ys true e h = (rw e refl, h)
covers_step v x xs ys false e h = (
  rw e (contains_cons x ys),
  All_weaken xs (λ n. or_later (contains v n) (same n x) (contains ys n)) h,
)

new-covers :
    (v xs : List Bytes)
    → All (λ n. (contains v n || contains (select (λ m. not (contains v m)) xs) n) ≡ true) xs
new-covers v [] = tt
new-covers v (x ∷ xs) =
    covers_step v x xs (select (λ m. not (contains v m)) xs) (contains v x) refl (new-covers v xs)

-- What a run has applied is pending no more.
pending_of-append :
    (names : Option (List Bytes)) (v : List Bytes) → pending_of names (v ++ pending_of names v) ≡ []
pending_of-append none v = refl
pending_of-append (some names) v = select-none _ (sort_by by_name names) (
    All_weaken (sort_by by_name names)
      (λ n h. ap not (contains-append v (pending_of (some names) v) n ∙ h))
      (new-covers v (sort_by by_name names)))

-- A run that succeeds leaves nothing to apply.
pub migrate-none_pending :
    (folder : Folder) (l : Ledger)
    → (migrate folder l).0 ≡ true
    → pending folder (migrate folder l).1.versions ≡ []
migrate-none_pending folder l succeeded =
    let run = migrate-IsRun folder l in
    let whole : run.done ≡ pending folder l.versions =
      sym (append-nil run.done)
      ∙ sym (ap (λ xs. run.done ++ xs) (run.complete succeeded))
      ∙ sym run.split in
    ap (pending folder) (run.versions ∙ ap (λ xs. l.versions ++ xs) whole)
    ∙ pending_of-append (gathered_names folder) l.versions

-- A run behind one that succeeded, of the same files, applies nothing, whatever fails in it.
pub migrate-again :
    (folder : Folder) (l l' : Ledger)
    → (migrate folder l).0 ≡ true
    → l'.versions ≡ (migrate folder l).1.versions
    → ((migrate folder l').1.versions ≡ l'.versions) × ((migrate folder l').1.scripts ≡ l'.scripts)
migrate-again folder l l' succeeded same_versions =
    let second = migrate-IsRun folder l' in
    let finished : pending folder l'.versions ≡ [] =
      ap (pending folder) same_versions ∙ migrate-none_pending folder l succeeded in
    let idle : second.done ≡ [] =
      append-empty second.done second.left (sym second.split ∙ finished) in
    (
      second.versions ∙ ap (λ xs. l'.versions ++ xs) idle ∙ append-nil l'.versions,
      second.scripts ∙ ap (λ xs. l'.scripts ++ scripts_of folder xs) idle ∙ append-nil l'.scripts,
    )
  where
    append-empty : (xs ys : List Bytes) → xs ++ ys ≡ [] → xs ≡ []
    append-empty [] ys e = refl
    append-empty (x ∷ xs) ys e = cc
