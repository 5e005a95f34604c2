-- ===== src/Api/Wheels/Isolated.antt =====
-- The handlers that write wheels, for an account: what they leave of the others.
use spin_the_wheel.Prelude.{
  ℕ, select, refl, ap, ◌∙◌, Option, List, map, Bytes, length, ltb, Bool-cases, inl, inr,
}
use spin_the_wheel.Uid.{parse}
use spin_the_wheel.Store.Tables.{Db}
use spin_the_wheel.Store.Monad.{World}
use spin_the_wheel.Store.Product.{Product, product-audit}
use spin_the_wheel.Store.Shelf.{
  is_other, is_under, IsForeign, IsShelved, create_wheel-IsShelved, update_wheel-IsShelved,
  soft_delete_wheel-IsShelved, get_wheel_owned-IsShelved, list_segments-IsShelved,
}
use spin_the_wheel.Store.Shelf.Replaced.{replace_segments-IsShelved}
use spin_the_wheel.Store.Wheels.{create_wheel, get_wheel_owned, update_wheel, soft_delete_wheel}
use spin_the_wheel.Store.Segments.{Segment, replace_segments, list_segments}
use spin_the_wheel.Store.Accounts.{User}
use spin_the_wheel.Store.Audit.{AuditEntry}
use spin_the_wheel.Api.Reply.{Response, Request, audited, answer, attempt-keeps, guarded-keeps}
use spin_the_wheel.Api.Validate.Text.{valid_text}
use spin_the_wheel.Api.Wheels.{to_segment_output, delete_wheel}
use spin_the_wheel.Api.Wheels.Writing.{
  PatchInput, SegmentInput, Limits, valid_segments, create_wheel_handler, patch_wheel,
  save_segments, put_segments, patched_title, patched_active,
}

-- What an account can do to wheels, with the body that was read of its request.
pub data Write : Type 0 where
  creation : Option Bytes → Write
  change : Option PatchInput → Write
  removal : Write
  segments : Option (List SegmentInput) → Write

module _ (sha256 lower trim : Bytes → Bytes) (salt : Bytes) (limits : Limits) where
  -- The handler of a write, and the world behind it.
  unfoldable pub written : Write → User → Request → World → World
  unfolding create_wheel_handler patch_wheel delete_wheel put_segments
  written (creation input) u q w =
      (create_wheel_handler sha256 lower trim salt limits u q input w).1
  written (change input) u q w = (patch_wheel sha256 lower trim salt limits u q input w).1
  written removal u q w = (delete_wheel sha256 salt u q w).1
  written (segments input) u q w = (put_segments sha256 lower trim salt limits u q input w).1

  module _ (u : User) (q : Request) (v : Bytes) where
    audited-IsShelved :
        {A : Type 0} (before : Db) (e : AuditEntry) (st : ℕ) (a : A) (w : World)
        → IsShelved u.id v before w
        → IsShelved u.id v before (audited e (answer st a) w).1
    audited-IsShelved before e st a w h =
        ap
          (λ (p : Product). record {
            wheels = select (is_other u.id v) p.wheels;
            segments = select (is_under u.id v) p.segments;
          })
          (product-audit e w)
        ∙ h

    module _ (w : World) where
      abbrev Q : {B : Type 0} → Response B → World → Type 0
      Q r x = IsShelved u.id v w.db x

      creation-IsShelved :
          (input : Option Bytes) → IsShelved u.id v w.db (written (creation input) u q w)
      unfolding written create_wheel_handler
      creation-IsShelved input = guarded-keeps Q input _ _ w refl λ raw e.
          guarded-keeps Q (valid_text raw 1 limits.max_title_runes) _ _ w refl λ title e'.
            attempt-keeps Q (create_wheel u.id title) _ _ w
              (λ x _. create_wheel-IsShelved u.id v w.db title w refl)
              λ wheel _.
                audited-IsShelved w.db _ 201 wheel (create_wheel u.id title w).1
                  (create_wheel-IsShelved u.id v w.db title w refl)

      removal-IsShelved : IsShelved u.id v w.db (written removal u q w)
      unfolding written delete_wheel
      removal-IsShelved = guarded-keeps Q (parse q.path_id) _ _ w refl λ id e.
          attempt-keeps Q (soft_delete_wheel id u.id) _ _ w
            (λ x _. soft_delete_wheel-IsShelved u.id v w.db id w refl)
            λ done _.
              audited-IsShelved w.db _ 200 done (soft_delete_wheel id u.id w).1
                (soft_delete_wheel-IsShelved u.id v w.db id w refl)

      change-IsShelved :
          (input : Option PatchInput) → IsShelved u.id v w.db (written (change input) u q w)
      unfolding written patch_wheel
      change-IsShelved input = guarded-keeps Q (parse q.path_id) _ _ w refl λ id e.
          guarded-keeps Q input _ _ w refl λ patch e'.
            let read = get_wheel_owned-IsShelved u.id v w.db id w refl in
            let w1 = (get_wheel_owned id u.id w).1 in
            attempt-keeps Q (get_wheel_owned id u.id) _ _ w (λ x _. read)
              λ current _.
                guarded-keeps Q (patched_title current.title limits.max_title_runes patch.title) _ _
                  w1 read
                  λ title _.
                    let active = patched_active current.is_active patch.is_active in
                    let updated = update_wheel-IsShelved u.id v w.db id title active w1 read in
                    attempt-keeps Q (update_wheel id u.id title active) _ _ w1 (λ x _. updated)
                      λ wheel _.
                        audited-IsShelved w.db _ 200 wheel (update_wheel id u.id title active w1).1
                          updated

      saved-IsShelved :
          (id : Bytes) (segs : List Segment)
          → IsForeign u.id v w.db
          → IsShelved u.id v w.db (save_segments sha256 lower trim salt limits u q id segs w).1
      unfolding save_segments
      saved-IsShelved id segs foreign =
          let replaced = replace_segments-IsShelved u.id v id segs w foreign in
          let w1 = (replace_segments id u.id segs w).1 in
          attempt-keeps Q (replace_segments id u.id segs) _ _ w (λ x _. replaced)
            λ done _.
              let listed = list_segments-IsShelved u.id v w.db id w1 replaced in
              attempt-keeps Q (list_segments id) _ _ w1 (λ x _. listed)
                λ saved _.
                  audited-IsShelved w.db _ 200 (map to_segment_output saved) (list_segments id w1).1
                    listed

      segments-IsShelved :
          (input : Option (List SegmentInput))
          → IsForeign u.id v w.db
          → IsShelved u.id v w.db (written (segments input) u q w)
      unfolding written put_segments
      segments-IsShelved input foreign = guarded-keeps Q (parse q.path_id) _ _ w refl λ id e.
          guarded-keeps Q input _ _ w refl λ raws e'. elim (Bool-cases (ltb (length raws) 2)) [
            | inl few ↦ rw few refl
            | inr enough ↦ elim (Bool-cases (ltb limits.max_segments (length raws))) [
              | inl many ↦ rw (enough, many) refl
              | inr bounded ↦
                  rw (enough, bounded)
                    (guarded-keeps Q (valid_segments trim limits 0 raws) _ _ w refl
                      λ segs _. saved-IsShelved id segs foreign)
            ]
          ]

      -- Whatever an account sends to the handlers that write wheels, and whatever fails, the rows of a
      -- wheel that another account owns, and the segments under an identifier that is none of its own
      -- wheels, are those of before.
      pub written-IsShelved :
          (act : Write) → IsForeign u.id v w.db → IsShelved u.id v w.db (written act u q w)
      written-IsShelved (creation input) foreign = creation-IsShelved input
      written-IsShelved (change input) foreign = change-IsShelved input
      written-IsShelved removal foreign = removal-IsShelved
      written-IsShelved (segments input) foreign = segments-IsShelved input foreign
