-- ===== src/Store/Migrations/Once.antt =====
-- Migrations are applied in the order of their names, each once.
use spin_the_wheel.Prelude.{
  ◌+◌, ◌≡◌, refl, sym, ap, ◌∙◌, Bool, true, false, not, ◌||◌, ◌⊎◌, Option, none, some, List, [],
  ◌∷◌, ◌++◌, append-nil, append_assoc, Bytes, select, sort_by, Bool-cases, inl, inr, if◌then◌else◌,
}
use spin_the_wheel.Store.Migrations.{
  Folder, Ledger, contains, by_name, gathered_names, run_batch, migrate_one, migrate_all,
  migrate_named, migrate, spent,
}

-- The names that a run has yet to apply, in their order.
abbrev pub pending_of : Option (List Bytes) → List Bytes → List Bytes
pending_of none versions = []
pending_of (some names) versions = select (λ n. not (contains versions n)) (sort_by by_name names)

abbrev pub pending : Folder → List Bytes → List Bytes
pending folder versions = pending_of (gathered_names folder) versions

-- What the files hold.
abbrev pub script_of : Option Bytes → Bytes
script_of none = []
script_of (some body) = body

abbrev pub scripts_of : Folder → List Bytes → List Bytes
scripts_of folder [] = []
scripts_of folder (n ∷ ns) = script_of (folder.read n) ∷ scripts_of folder ns

-- A run from a ledger to another has applied the first of some names, and all of them where it says so.
pub record IsRun (folder : Folder) (names : List Bytes) (l : Ledger) (run : Bool × Ledger)
    : Type 0 where
  pub done : List Bytes
  pub left : List Bytes
  pub split : names ≡ done ++ left
  pub versions : run.1.versions ≡ l.versions ++ done
  pub scripts : run.1.scripts ≡ l.scripts ++ scripts_of folder done
  pub complete : run.0 ≡ true → left ≡ []

nothing :
    (folder : Folder) (names : List Bytes) (l l' : Ledger)
    → l'.versions ≡ l.versions
    → l'.scripts ≡ l.scripts
    → IsRun folder names l (false, l')
nothing folder names l l' v s = record {
  done = [];
  left = names;
  split = refl;
  versions = v ∙ sym (append-nil l.versions);
  scripts = s ∙ sym (append-nil l.scripts);
  complete = λ e. cc;
}

-- One batch: nothing, or its version and its script.
abbrev IsBatch : Bytes → Option Bytes → Ledger → Bool × Ledger → Type 0
IsBatch n content l (went, l') =
    ((went ≡ false) × (l'.versions ≡ l.versions) × (l'.scripts ≡ l.scripts))
    ⊎ ((went ≡ true)
        × (l'.versions ≡ l.versions ++ n ∷ [])
        × (l'.scripts ≡ l.scripts ++ script_of content ∷ []))

run_batch-IsBatch :
    (n : Bytes) (content : Option Bytes) (l : Ledger) → IsBatch n content l (run_batch n content l)
unfolding run_batch
run_batch-IsBatch n none l = inl (refl, refl, refl)
run_batch-IsBatch n (some body) l =
    elim (Bool-cases (l.faults l.statements || contains l.versions n)) [
      | inl fails ↦ rw fails (inl (refl, refl, refl))
      | inr passes ↦ rw passes (inr (refl, refl, refl))
    ]

module _ (folder : Folder) (applied : List Bytes) where
  -- The rest of a run behind a batch.
  unfoldable continued : List Bytes → Bool × Ledger → Bool × Ledger
  continued ns (went, l) = elim went [ true ↦ migrate_all folder applied ns l | false ↦ (false, l) ]

  continued-IsRun :
      (n : Bytes) (ns left : List Bytes) (l : Ledger) (r : Bool × Ledger)
      → IsBatch n (folder.read n) l r
      → IsRun folder left r.1 (migrate_all folder applied ns r.1)
      → IsRun folder (n ∷ left) l (continued ns r)
  unfolding continued
  continued-IsRun n ns left l (false, l') (inl (e, v, s)) run = nothing folder (n ∷ left) l l' v s
  continued-IsRun n ns left l (true, l') (inl (e, v, s)) run = cc
  continued-IsRun n ns left l (false, l') (inr (e, v, s)) run = cc
  continued-IsRun n ns left l (true, l') (inr (e, v, s)) run = record {
    done = n ∷ run.done;
    left = run.left;
    split = ap (λ xs. n ∷ xs) run.split;
    versions =
        run.versions ∙ ap (λ xs. xs ++ run.done) v ∙ append_assoc l.versions (n ∷ []) run.done;
    scripts =
        run.scripts
        ∙ ap (λ xs. xs ++ scripts_of folder run.done) s
        ∙ append_assoc l.scripts (script_of (folder.read n) ∷ []) (scripts_of folder run.done);
    complete = run.complete;
  }

  -- A name, applied already or not.
  one :
      (n : Bytes) (ns : List Bytes) (l : Ledger) (known : Bool)
      → IsRun folder (select (λ n. not (contains applied n)) ns) l (migrate_all folder applied ns l)
      → IsRun folder
          (select (λ n. not (contains applied n)) ns)
          (run_batch n (folder.read n) l).1
          (migrate_all folder applied ns (run_batch n (folder.read n) l).1)
      → IsRun folder
          (if not known
            then n ∷ select (λ n. not (contains applied n)) ns
            else select (λ n. not (contains applied n)) ns)
          l
          (continued ns (if known then (true, l) else run_batch n (folder.read n) l))
  unfolding continued
  one n ns l true passed applied_now = passed
  one n ns l false passed applied_now =
      continued-IsRun n ns _ l (run_batch n (folder.read n) l)
        (run_batch-IsBatch n (folder.read n) l) applied_now

  migrate_all-IsRun :
      (ns : List Bytes) (l : Ledger)
      → IsRun folder (select (λ n. not (contains applied n)) ns) l (migrate_all folder applied ns l)
  unfolding migrate_all migrate_one continued
  migrate_all-IsRun [] l = record {
    done = [];
    left = [];
    split = refl;
    versions = sym (append-nil l.versions);
    scripts = sym (append-nil l.scripts);
    complete = λ e. refl;
  }
  migrate_all-IsRun (n ∷ ns) l =
      one n ns l (contains applied n) (migrate_all-IsRun ns l)
        (migrate_all-IsRun ns (run_batch n (folder.read n) l).1)

migrate_named-IsRun :
    (folder : Folder) (names : Option (List Bytes)) (l : Ledger)
    → IsRun folder (pending_of names l.versions) l (migrate_named folder names l)
migrate_named-IsRun folder none l = nothing folder _ l l refl refl
migrate_named-IsRun folder (some names) l =
    migrate_all-IsRun folder l.versions (sort_by by_name names) l

-- `Migrate`, whatever fails, has applied the first of the pending names in their order, each one's script
-- and version together, and all of them where it succeeds.
pub migrate-IsRun :
    (folder : Folder) (l : Ledger) → IsRun folder (pending folder l.versions) l (migrate folder l)
unfolding migrate
migrate-IsRun folder l = elim (Bool-cases (l.faults l.statements)) [
  | inl fails ↦ rw fails (nothing folder _ l _ refl refl)
  | inr passes ↦ elim (Bool-cases (l.faults (l.statements + 1))) [
    | inl fails ↦ rw (passes, fails) (nothing folder _ l _ refl refl)
    | inr read ↦
        rw (passes, read)
          (moved (migrate_named-IsRun folder (gathered_names folder) (spent (spent l))))
  ]
]
  where
    moved :
        {run : Bool × Ledger}
        → IsRun folder (pending folder l.versions) (spent (spent l)) run
        → IsRun folder (pending folder l.versions) l run
    moved r = record {
      done = r.done;
      left = r.left;
      split = r.split;
      versions = r.versions;
      scripts = r.scripts;
      complete = r.complete;
    }
