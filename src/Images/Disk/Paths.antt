-- ===== src/Images/Disk/Paths.antt =====
-- The paths of the volume do not meet, and an operation touches the paths that it names alone.
use spin_the_wheel.Prelude.{
  ℕ, ◌≡◌, refl, sym, ap, ◌∙◌, true, false, some, [], ◌∷◌, ◌++◌, append_assoc, Bytes, AreBytes, text,
  same, same_iff, same_refl, length, length-append, arith, Bool-cases, Option-cases, inl, inr,
}
use spin_the_wheel.Uid.{string, parse}
use spin_the_wheel.Uid.Text.{parse-string}
use spin_the_wheel.Images.Disk.{Site, write_file, rename, remove, image_path, temporary, move_file}

abbrev last_of : ℕ → Bytes → ℕ
last_of d [] = d
last_of d (b ∷ bs) = last_of b bs

last_of-append :
    (d : ℕ) (xs : Bytes) (b c : ℕ) (ys : Bytes) → last_of d (xs ++ b ∷ ys) ≡ last_of b ys
last_of-append d [] b c ys = refl
last_of-append d (x ∷ xs) b c ys = last_of-append x xs b c ys

last_of-image_path : (dir id : Bytes) → last_of 0 (image_path dir id) ≡ b'g'
unfolding image_path
last_of-image_path dir id =
    ap (last_of 0) (
      sym (append_assoc dir (text "/") (string id ++ text ".png"))
      ∙ sym (append_assoc (dir ++ text "/") (string id) (text ".png")))
    ∙ last_of-append 0 ((dir ++ text "/") ++ string id) b'.' 0 (text "png")

last_of-temporary : (path : Bytes) → last_of 0 (temporary path) ≡ b'p'
last_of-temporary path = last_of-append 0 path b'.' 0 (text "tmp")

-- The file of an image is the temporary file of none.
pub same-temporary :
    (dir a b : Bytes) → same (image_path dir a) (temporary (image_path dir b)) ≡ false
same-temporary dir a b =
    elim (Bool-cases (same (image_path dir a) (temporary (image_path dir b)))) [
      | inl equal ↦
          let e = (same_iff (image_path dir a) (temporary (image_path dir b))).0 equal in
          let g =
            sym (last_of-image_path dir a)
            ∙ ap (last_of 0) e
            ∙ last_of-temporary (image_path dir b) in
          absurd (omega arith)
      | inr other ↦ other
    ]

append_cancel_left : (xs ys zs : Bytes) → xs ++ ys ≡ xs ++ zs → ys ≡ zs
append_cancel_left [] ys zs e = e
append_cancel_left (x ∷ xs) ys zs e = append_cancel_left xs ys zs (cc)

length-suffix : (xs ys s : Bytes) → xs ++ s ≡ ys ++ s → length xs ≡ length ys
length-suffix xs ys s e = omega (arith, ap length e, length-append xs s, length-append ys s)

append_cancel_right : (xs ys s : Bytes) → length xs ≡ length ys → xs ++ s ≡ ys ++ s → xs ≡ ys
append_cancel_right [] [] s h e = refl
append_cancel_right [] (y ∷ ys) s h e = absurd (omega arith)
append_cancel_right (x ∷ xs) [] s h e = absurd (omega arith)
append_cancel_right (x ∷ xs) (y ∷ ys) s h e =
    let rest = append_cancel_right xs ys s (omega arith) (cc) in cc

-- A UUID: sixteen bytes.
pub record IsUuid (u : Bytes) : Type 0 where
  pub length_eq : length u ≡ 16
  pub are_bytes : AreBytes u

-- Two UUIDs have two paths.
pub image_path_injective :
    (dir a b : Bytes) → IsUuid a → IsUuid b → image_path dir a ≡ image_path dir b → a ≡ b
unfolding image_path
image_path_injective dir a b va vb e =
    let e1 = append_cancel_left dir _ _ e in
    let e2 = append_cancel_left (text "/") (string a ++ text ".png") (string b ++ text ".png") e1 in
    let e3 =
      append_cancel_right (string a) (string b) (text ".png")
        (length-suffix (string a) (string b) (text ".png") e2) e2 in
    let read =
      sym (parse-string a va.length_eq va.are_bytes)
      ∙ ap parse e3
      ∙ parse-string b vb.length_eq vb.are_bytes in
    cc

-- What each operation leaves at a path that it does not name.
pub files-write_file :
    (path content p : Bytes) (s : Site)
    → same p path ≡ false
    → (write_file path content s).1.files p ≡ s.files p
unfolding write_file
files-write_file path content p s other = elim (Bool-cases (s.faults s.operations)) [
  | inl fault ↦ rw (fault, other)
  | inr fine ↦ rw (fine, other)
]

pub files-remove :
    (path p : Bytes) (s : Site) → same p path ≡ false → (remove path s).files p ≡ s.files p
unfolding remove
files-remove path p s other = elim (Bool-cases (s.faults s.operations)) [
  | inl fault ↦ rw fault
  | inr fine ↦ rw (fine, other)
]

pub files-rename :
    (from to p : Bytes) (s : Site)
    → same p from ≡ false
    → same p to ≡ false
    → (rename from to s).1.files p ≡ s.files p
unfolding rename
files-rename from to p s other_from other_to = elim (Bool-cases (s.faults s.operations)) [
  | inl fault ↦ rw fault
  | inr fine ↦ elim (Option-cases (s.files from)) [
    | inl missing ↦ rw (fine, missing, move_file)
    | inr (content, found) ↦ rw (fine, found, move_file, other_to, other_from)
  ]
]

-- What a write and a rename that succeed have put in place.
pub files-written :
    (path content : Bytes) (s : Site)
    → (write_file path content s).0 ≡ true
    → (write_file path content s).1.files path ≡ some content
unfolding write_file
files-written path content s e = elim (Bool-cases (s.faults s.operations)) [
  | inl fault ↦ let e' = rw fault at e in cc
  | inr fine ↦ rw (fine, same_refl path)
]

pub files-renamed :
    (from to content : Bytes) (s : Site)
    → (rename from to s).0 ≡ true
    → s.files from ≡ some content
    → (rename from to s).1.files to ≡ some content
unfolding rename
files-renamed from to content s e found = elim (Bool-cases (s.faults s.operations)) [
  | inl fault ↦ let e' = rw fault at e in cc
  | inr fine ↦ rw (fine, found, move_file, same_refl to)
]

-- No operation on files touches the database.
pub world-write_file :
    (path content : Bytes) (s : Site) → (write_file path content s).1.world ≡ s.world
unfolding write_file
world-write_file path content s = elim (Bool-cases (s.faults s.operations)) [
  | inl fault ↦ rw fault
  | inr fine ↦ rw fine
]

pub world-remove : (path : Bytes) (s : Site) → (remove path s).world ≡ s.world
unfolding remove
world-remove path s = elim (Bool-cases (s.faults s.operations)) [
  | inl fault ↦ rw fault
  | inr fine ↦ rw fine
]

pub world-rename : (from to : Bytes) (s : Site) → (rename from to s).1.world ≡ s.world
unfolding rename
world-rename from to s = elim (Bool-cases (s.faults s.operations)) [
  | inl fault ↦ rw fault
  | inr fine ↦ elim (Option-cases (s.files from)) [
    | inl missing ↦ rw (fine, missing, move_file)
    | inr (content, found) ↦ rw (fine, found, move_file)
  ]
]
