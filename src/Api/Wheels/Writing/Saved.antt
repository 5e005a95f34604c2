-- ===== src/Api/Wheels/Writing/Saved.antt =====
-- What `putSegments` saves, whatever statements fail.
use mathlib.Core.Path.{subst}
use spin_the_wheel.Prelude.{
  ℕ, sort_by, select, same, suc, ◌≤◌, ◌≡◌, ◌⊎◌, refl, sym, ap, ◌∙◌, then-eq-some, some, List, [],
  ◌∷◌, map, Bytes, text, length, ltb, leb, All, arith, Bool-cases, inl, inr,
}
use spin_the_wheel.Uid.{parse, nil_uuid}
use spin_the_wheel.Store.Tables.{Db, SegmentRow, ImageRow, SpinRow, segments_saved}
use spin_the_wheel.Store.Monad.{failed, ok, World, new_uid, exec}
use spin_the_wheel.Store.Runs.{exec-eq-ok, db-query}
use spin_the_wheel.Store.Segments.{
  Segment, to_segment, segments_of, list_segments, replace_segments,
}
use spin_the_wheel.Store.Segments.Built.{content, rows_not_of}
use spin_the_wheel.Store.Segments.Replacing.{IsReplaced, replace_segments_atomic}
use spin_the_wheel.Store.Accounts.{User}
use spin_the_wheel.Store.Audit.{AuditEntry, audit}
use spin_the_wheel.Api.Reply.{
  Refusal, Response, reply, refused, Request, not_found_reply, invalid_reply, internal_reply,
  found_or_internal, attempt-keeps, guarded-keeps, entry,
}
use spin_the_wheel.Api.Validate.{valid_color, IsColor, valid_color-IsColor}
use spin_the_wheel.Api.Validate.Text.{valid_text}
use spin_the_wheel.Api.Validate.Text.Clean.{IsText, valid_text-IsText}
use spin_the_wheel.Api.Wheels.{SegmentOutput, to_segment_output}
use spin_the_wheel.Api.Wheels.Writing.{
  SegmentInput, Limits, parsed_image, valid_segment, valid_segments, save_segments, save_counted,
  put_segments,
}

-- A segment that can be saved: a clean label within the limit, and a colour.
abbrev pub IsSegment : ℕ → Segment → Type 0
IsSegment max_runes s = IsText 0 max_runes s.label × IsColor s.color

valid_segment-IsSegment :
    (trim : Bytes → Bytes) (limits : Limits) (i : ℕ) (raw : SegmentInput) (s : Segment)
    → valid_segment trim limits i raw ≡ some s
    → IsSegment limits.max_label_runes s
unfolding valid_segment
valid_segment-IsSegment trim limits i raw s e =
    let (label, labelled, e1) = then-eq-some (valid_text raw.label 0 limits.max_label_runes) _ e in
    let (color, colored, e2) = then-eq-some (valid_color trim raw.color) _ e1 in
    let (image, _, e3) = then-eq-some (parsed_image raw.image_id) _ e2 in
    let built : record {
      id = nil_uuid;
      position = i;
      label = label;
      color = color;
      image_id = image;
    }
        ≡ s =
      cc in
    subst (IsSegment limits.max_label_runes) built (
      (valid_text-IsText raw.label label 0 limits.max_label_runes labelled).0,
      valid_color-IsColor trim raw.color color colored,
    )

valid_segments-IsSegment :
    (trim : Bytes → Bytes) (limits : Limits) (i : ℕ) (raws : List SegmentInput)
    (segs : List Segment)
    → valid_segments trim limits i raws ≡ some segs
    → All (IsSegment limits.max_label_runes) segs × (length segs ≡ length raws)
unfolding valid_segments
valid_segments-IsSegment trim limits i [] segs e =
    let none_left : [] ≡ segs = cc in
    (subst (All (IsSegment limits.max_label_runes)) none_left tt, ap length (sym none_left))
valid_segments-IsSegment trim limits i (raw ∷ rest) segs e =
    let (s, first, e1) = then-eq-some (valid_segment trim limits i raw) _ e in
    let (ss, others, e2) = then-eq-some (valid_segments trim limits (suc i) rest) _ e1 in
    let (all, same_length) = valid_segments-IsSegment trim limits (suc i) rest ss others in
    let built : s ∷ ss ≡ segs = cc in
    (
      subst (All (IsSegment limits.max_label_runes)) built
          (valid_segment-IsSegment trim limits i raw s first, all),
      ap length (sym built) ∙ ap suc same_length,
    )

-- The segments of a wheel among some rows.
abbrev shown : Bytes → List SegmentRow → List Segment
shown wheel rows = map to_segment (
    sort_by (λ a b. leb a.position b.position)
      (select (λ (r : SegmentRow). same r.wheel_id wheel) rows))

-- The rows of the segments, the images and the spins.
abbrev saved_rows : Db → List SegmentRow × List ImageRow × List SpinRow
saved_rows db = (db.segments, db.images, db.spins)

rows-audit : (e : AuditEntry) (w : World) → saved_rows (audit e w).1.db ≡ saved_rows w.db
unfolding audit new_uid exec
rows-audit e w = elim (Bool-cases (w.faults w.statements)) [
  | inl fault ↦ rw fault
  | inr fine ↦ rw fine
]

segments-moved :
    (wheel : Bytes) (a b : Db)
    → saved_rows b ≡ saved_rows a
    → segments_of wheel b ≡ segments_of wheel a
unfolding segments_of
segments-moved wheel a b same_rows = ap (shown wheel) (ap (λ x. x.0) same_rows)

IsReplaced-moved :
    (wheel owner : Bytes) (segs : List Segment) (before a b : Db)
    → saved_rows b ≡ saved_rows a
    → IsReplaced wheel owner segs before a
    → IsReplaced wheel owner segs before b
IsReplaced-moved wheel owner segs before a b same_rows r =
    let view = segments-moved wheel a b same_rows in
    record {
      owned = r.owned;
      contents = ap (map content) view ∙ r.contents;
      positions = ap (map (λ s. s.position)) view ∙ r.positions;
      own_images = r.own_images;
      others = ap (λ x. rows_not_of wheel x.0) same_rows ∙ r.others;
      images = ap (λ x. x.1) same_rows ∙ r.images;
      spins = ap (λ x. x.2) same_rows ∙ r.spins;
    }

-- The body of a request that was saved: it is within the limits, its segments are clean, and they have
-- replaced those of the wheel.
pub record IsSaved (trim : Bytes → Bytes) (limits : Limits) (owner id : Bytes)
    (raws : List SegmentInput) (before : Db) (a : Response (List SegmentOutput)) (after : Db)
    : Type 0 where
  pub at_least : 2 ≤ length raws
  pub at_most : length raws ≤ limits.max_segments
  pub segs : List Segment
  pub read : valid_segments trim limits 0 raws ≡ some segs
  pub clean : All (IsSegment limits.max_label_runes) segs
  pub same_count : length segs ≡ length raws
  pub replaced : IsReplaced id owner segs before after
  pub answered :
      (a ≡ refused (internal_reply failed))
      ⊎ (a ≡ reply 200 (map to_segment_output (segments_of id after)))

-- The part of that record behind the checks.
abbrev Stored : Bytes → Bytes → List Segment → Db → Response (List SegmentOutput) → World → Type 0
Stored owner id segs before a v =
    ((r : Refusal) × (a ≡ refused r) × (v.db ≡ before))
    ⊎ (IsReplaced id owner segs before v.db
        × ((a ≡ refused (internal_reply failed))
            ⊎ (a ≡ reply 200 (map to_segment_output (segments_of id v.db)))))

db-list_segments : (id : Bytes) (w : World) → (list_segments id w).1.db ≡ w.db
unfolding list_segments
db-list_segments id w = db-query _ w

list_segments-eq-ok :
    (id : Bytes) (w : World) (saved : List Segment)
    → (list_segments id w).0 ≡ ok saved
    → saved ≡ segments_of id w.db
unfolding list_segments
list_segments-eq-ok id w saved e = sym (exec-eq-ok (λ now db. (segments_of id db, db)) w e).0

module _ (sha256 lower trim : Bytes → Bytes) (salt : Bytes) (limits : Limits) where
  -- A request is refused and the tables are as before, or it is saved.
  abbrev pub Put :
      User → Request → List SegmentInput → World → Response (List SegmentOutput) → World → Type 0
  Put u q raws w a v =
      ((r : Refusal) × (a ≡ refused r) × (v.db ≡ w.db))
      ⊎ ((id : Bytes) × (parse q.path_id ≡ some id) × IsSaved trim limits u.id id raws w.db a v.db)

  save_segments-Stored :
      (u : User) (q : Request) (id : Bytes) (segs : List Segment) (w : World)
      → Stored u.id id segs w.db
          (save_segments sha256 lower trim salt limits u q id segs w).0
          (save_segments sha256 lower trim salt limits u q id segs w).1
  unfolding save_segments
  save_segments-Stored u q id segs w =
      let e = entry sha256 salt q u.id segments_saved (text "wheel") id in
      let (on_error, on_success) = replace_segments_atomic id u.id segs w in
      attempt-keeps (Stored u.id id segs w.db) (replace_segments id u.id segs) found_or_internal _ w
        (λ x failing. inl (found_or_internal x, refl, on_error x failing))
        λ _ done.
          let v = (replace_segments id u.id segs w).1 in
          let replaced = on_success done in
          attempt-keeps (Stored u.id id segs w.db) (list_segments id) internal_reply _ v
            (λ x failing. inr (
              IsReplaced-moved id u.id segs w.db v.db (list_segments id v).1.db
                  (ap saved_rows (db-list_segments id v)) replaced,
              inl refl,
            ))
            λ saved reading.
              let v' = (list_segments id v).1 in
              let rows = rows-audit e v' ∙ ap saved_rows (db-list_segments id v) in
              inr (
                IsReplaced-moved id u.id segs w.db v.db (audit e v').1.db rows replaced,
                inr (
                    ap (λ x. reply 200 (map to_segment_output x))
                      (list_segments-eq-ok id v saved reading
                        ∙ sym (segments-moved id v.db (audit e v').1.db rows))),
              )

  checked-Put :
      (u : User) (q : Request) (raws : List SegmentInput) (id : Bytes) (segs : List Segment)
      (w : World)
      → 2 ≤ length raws
      → length raws ≤ limits.max_segments
      → parse q.path_id ≡ some id
      → valid_segments trim limits 0 raws ≡ some segs
      → Put u q raws w
          (save_segments sha256 lower trim salt limits u q id segs w).0
          (save_segments sha256 lower trim salt limits u q id segs w).1
  checked-Put u q raws id segs w two few parsed read = elim (save_segments-Stored u q id segs w) [
    | inl h ↦ inl h
    | inr (replaced, answered) ↦
        let (clean, same_count) = valid_segments-IsSegment trim limits 0 raws segs read in
        inr (
          id,
          parsed,
          record {
            at_least = two;
            at_most = few;
            segs = segs;
            read = read;
            clean = clean;
            same_count = same_count;
            replaced = replaced;
            answered = answered;
          },
        )
  ]

  counted-Put :
      (u : User) (q : Request) (raws : List SegmentInput) (id : Bytes) (w : World)
      → parse q.path_id ≡ some id
      → Put u q raws w
          (save_counted sha256 lower trim salt limits u q id raws w).0
          (save_counted sha256 lower trim salt limits u q id raws w).1
  counted-Put u q raws id w parsed = elim (Bool-cases (ltb (length raws) 2)) [
    | inl few ↦ rw few (inl (invalid_reply, refl, refl))
    | inr h1 ↦ elim (Bool-cases (ltb limits.max_segments (length raws))) [
      | inl many ↦ rw (h1, many) (inl (invalid_reply, refl, refl))
      | inr h2 ↦
          rw (h1, h2)
            (guarded-keeps (Put u q raws w) (valid_segments trim limits 0 raws) invalid_reply _ w
              (inl (invalid_reply, refl, refl))
              λ segs read. checked-Put u q raws id segs w (ground arith) (ground arith) parsed read)
    ]
  ]

  -- `putSegments`, whatever statements fail, refuses a request and leaves every table as it was, or
  -- saves it: the body has two segments at least and no more than the limit, each has a clean label
  -- within its limit and a colour, and they have replaced those of the wheel of the path, which is the
  -- caller's. Then it answers the segments that are stored, or that it could not read them again.
  pub put_segments-Put :
      (u : User) (q : Request) (raws : List SegmentInput) (w : World)
      → Put u q raws w
          (put_segments sha256 lower trim salt limits u q (some raws) w).0
          (put_segments sha256 lower trim salt limits u q (some raws) w).1
  unfolding put_segments
  put_segments-Put u q raws w =
      guarded-keeps (Put u q raws w) (parse q.path_id) not_found_reply _ w
        (inl (not_found_reply, refl, refl)) λ id parsed. counted-Put u q raws id w parsed
