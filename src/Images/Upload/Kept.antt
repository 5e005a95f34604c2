-- ===== src/Images/Upload/Kept.antt =====
-- The branches of an upload: what is refused early, and what reaches the volume.
use mathlib.Core.Path.{subst}
use spin_the_wheel.Prelude.{
  ℕ, zero, suc, [], ◌∷◌, ◌+◌, ◌≤◌, ◌≡◌, refl, ap, ◌⊎◌, Option, none, some, Bytes, take, length, leb,
  ltb, arith, Bool-cases, inl, inr,
}
use spin_the_wheel.Imgproc.{Image, Outcome, Codec, process}
use spin_the_wheel.Store.Monad.{Result, ok, err, World, counted, exec}
use spin_the_wheel.Store.Accounts.{User}
use spin_the_wheel.Store.Sessions.{one_day}
use spin_the_wheel.Store.Images.{count_images_since}
use spin_the_wheel.Api.Reply.{
  bad_request, too_large, Refusal, Response, refused, Request, refusal, internal_reply,
}
use spin_the_wheel.Images.Disk.{Site, on_store}
use spin_the_wheel.Images.Upload.{
  image_target_side, max_images_per_day, quota_reply, Form, over_limit, unreadable, form,
  ImageConfig, ImageInfo, processed, read_field, counted_uploads, upload_image,
}
use spin_the_wheel.Images.Upload.Published.{IsStored, store_image-IsStored}

world-count_images_since :
    (owner : Bytes) (since : ℕ) (w : World) → (count_images_since owner since w).1 ≡ counted w
unfolding count_images_since exec
world-count_images_since owner since w = elim (Bool-cases (w.faults w.statements)) [
  | inl fault ↦ rw fault
  | inr fine ↦ rw fine
]

-- A list that is shorter than what is taken of it is taken whole.
take_within : (n : ℕ) (b : Bytes) → length (take (suc n) b) ≤ n → take (suc n) b ≡ b
take_within n [] h = refl
take_within zero (x ∷ xs) h = let no : ⊥ = omega arith in elim no [ ]
take_within (suc n) (x ∷ xs) h = ap (λ t. x ∷ t) (take_within n xs (omega arith))

take_whole : (n : ℕ) (b : Bytes) → length (take (n + 1) b) ≤ n → take (n + 1) b ≡ b
take_whole n b =
    let next : suc n ≡ n + 1 = omega arith in
    subst (λ (m : ℕ). length (take m b) ≤ n → take m b ≡ b) next (take_within n b)

-- An upload that reached `store_image`: its bytes are within the limit and were normalised.
pub record IsUploaded (codec : Codec) (cfg : ImageConfig) (owner content : Bytes) (s : Site)
    (a : Response ImageInfo) (v : Site) : Type 0 where
  pub img : Image
  pub within : length content ≤ cfg.max_image_bytes
  pub normalised : process codec content cfg.max_image_pixels image_target_side ≡ Outcome.ok img
  pub stored : IsStored cfg.image_dir owner (s.world.uuids s.world.drawn) img s a v

-- An upload is refused before anything is written, or reached it with the whole content of the form's
-- field.
abbrev pub Upload : Codec → ImageConfig → Bytes → Form → Site → Response ImageInfo → Site → Type 0
Upload codec cfg owner f s a v =
    ((r : Refusal) × (a ≡ refused r)
      × (v.files ≡ s.files)
      × (v.world.db.images ≡ s.world.db.images))
    ⊎ ((content : Bytes) × (f ≡ form (some (some content)))
        × IsUploaded codec cfg owner content s a v)

module _ (codec : Codec) (sha256 : Bytes → Bytes) (cfg : ImageConfig) where
  processed-Upload :
      (u : User) (q : Request) (content : Bytes) (o : Outcome) (s : Site)
      → length content ≤ cfg.max_image_bytes
      → process codec content cfg.max_image_pixels image_target_side ≡ o
      → Upload codec cfg u.id
          (form (some (some content)))
          s
          (processed codec sha256 cfg u q o s).0
          (processed codec sha256 cfg u q o s).1
  processed-Upload u q content (Outcome.err x) s within e =
      inl (refusal 400 bad_request, refl, refl, refl)
  processed-Upload u q content (Outcome.ok img) s within e = inr (
    content,
    refl,
    record {
      img = img;
      within = within;
      normalised = e;
      stored = store_image-IsStored codec sha256 cfg u q img s;
    },
  )

  read_field-Upload :
      (u : User) (q : Request) (field : Option (Option Bytes)) (s : Site)
      → Upload codec cfg u.id
          (form field)
          s
          (read_field codec sha256 cfg u q field s).0
          (read_field codec sha256 cfg u q field s).1
  read_field-Upload u q none s = inl (refusal 400 bad_request, refl, refl, refl)
  read_field-Upload u q (some none) s = inl (refusal 400 bad_request, refl, refl, refl)
  read_field-Upload u q (some (some content)) s =
      let raw = take (cfg.max_image_bytes + 1) content in
      elim (Bool-cases (ltb cfg.max_image_bytes (length raw))) [
        | inl long ↦ rw long (inl (refusal 413 too_large, refl, refl, refl))
        | inr within ↦
            let short : length raw ≤ cfg.max_image_bytes = ground arith in
            let whole = take_whole cfg.max_image_bytes content short in
            rw within (
              subst
                (λ b.
                  Upload codec cfg u.id (form (some (some b))) s
                    (processed codec sha256 cfg u q
                      (process codec raw cfg.max_image_pixels image_target_side) s).0
                    (processed codec sha256 cfg u q
                      (process codec raw cfg.max_image_pixels image_target_side) s).1)
                whole
                (processed-Upload u q raw (process codec raw cfg.max_image_pixels image_target_side)
                  s short refl))
      ]

  counted-Upload :
      (u : User) (q : Request) (field : Option (Option Bytes)) (result : Result ℕ) (s : Site)
      → Upload codec cfg u.id
          (form field)
          s
          (counted_uploads codec sha256 cfg u q field result s).0
          (counted_uploads codec sha256 cfg u q field result s).1
  counted-Upload u q field (err x) s = inl (internal_reply x, refl, refl, refl)
  counted-Upload u q field (ok recent) s = elim (Bool-cases (leb max_images_per_day recent)) [
    | inl full ↦ rw full (inl (quota_reply, refl, refl, refl))
    | inr room ↦ rw room (read_field-Upload u q field s)
  ]

  Upload-counted :
      (owner : Bytes) (f : Form) (s : Site) (a : Response ImageInfo) (v : Site)
      → Upload codec cfg owner f (record s { world = counted s.world }) a v
      → Upload codec cfg owner f s a v
  Upload-counted owner f s a v (inl h) = inl h
  Upload-counted owner f s a v (inr (content, sent, i)) = inr (
    content,
    sent,
    record {
      img = i.img;
      within = i.within;
      normalised = i.normalised;
      stored = record { frame = i.stored.frame; outcome = i.stored.outcome };
    },
  )

  -- What `uploadImage` does, on every branch and whatever fails on the disk or in the database: it is
  -- refused before any write; or the form has the field, its content, whole and within the limit, was
  -- normalised, only files of a new identifier have changed, and either it is refused and no row is
  -- added, or it is answered, the one row that is added describes the normalised image, and the file
  -- at its path holds that image.
  pub upload_image-Upload :
      (u : User) (q : Request) (f : Form) (s : Site)
      → Upload codec cfg u.id f s
          (upload_image codec sha256 cfg u q f s).0
          (upload_image codec sha256 cfg u q f s).1
  unfolding upload_image
  upload_image-Upload u q over_limit s = inl (refusal 413 too_large, refl, refl, refl)
  upload_image-Upload u q unreadable s = inl (refusal 400 bad_request, refl, refl, refl)
  upload_image-Upload u q (form field) s =
      let counting = count_images_since u.id one_day in
      let v = (on_store counting s).1 in
      let u' : Upload codec cfg u.id (form field) v
          (upload_image codec sha256 cfg u q (form field) s).0
          (upload_image codec sha256 cfg u q (form field) s).1 =
        counted-Upload u q field (counting s.world).0 v in
      let same_site : v ≡ record s { world = counted s.world } =
        ap (λ (w : World). let x : Site = record s { world = w } in x)
          (world-count_images_since u.id one_day s.world) in
      Upload-counted u.id (form field) s (upload_image codec sha256 cfg u q (form field) s).0
        (upload_image codec sha256 cfg u q (form field) s).1
        (subst
          (λ (x : Site).
            Upload codec cfg u.id (form field) x
              (upload_image codec sha256 cfg u q (form field) s).0
              (upload_image codec sha256 cfg u q (form field) s).1)
          same_site u')
