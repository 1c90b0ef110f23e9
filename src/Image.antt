-- ===== src/Image.antt =====
-- libips/src/image: the record of an image and where it is read from. An `i32` is its bit pattern.
use ips.Base.{ℕ, String, Bool, ◌≡◌, ◌↔◌, ◌⊎◌, inl, inr, refl, List, []}
use ips.Base.Outcome.{Outcome, ok, err, panic, map_err, ◌>>=◌}
use ips.Base.Table.{Table}
use ips.Base.Paths.{join_path}

mutual
  pub data ImageProperty : Type 0 where
    string : String → ImageProperty
    boolean : Bool → ImageProperty
    none : ImageProperty
    array : ImageProperties → ImageProperty
    integer : ℕ → ImageProperty

  pub data ImageProperties : Type 0 where
    nil : ImageProperties
    cons : ImageProperty → ImageProperties → ImageProperties

pub record Image : Type 0 where
  pub path : String
  pub props : List ImageProperty
  pub version : ℕ
  pub variants : Table String
  pub mediators : Table String

-- `Image::new`.
unfoldable pub new : String → Image
new path = record { path = path; version = 5; variants = []; mediators = []; props = [] }

pub data ImageError (IoError JsonError : Type 0) : Type 0 where
  io : IoError → ImageError IoError JsonError
  json : JsonError → ImageError IoError JsonError

-- `open_file` is `File::open`, `from_reader` the crate `serde_json` with what it derives for `Image`.
module _ {IoError JsonError Handle : Type 0} (open_file : String → Outcome IoError Handle)
    (from_reader : Handle → Outcome JsonError Image) where
  -- `Image::open`.
  unfoldable pub open_image : String → Outcome (ImageError IoError JsonError) Image
  unfolding join_path
  open_image path = do
    f ← map_err io (open_file (join_path path "pkg6.image.json"))
    map_err json (from_reader f)

  abbrev image_or_new : String → Outcome (ImageError IoError JsonError) Image → Outcome ⊥ Image
  image_or_new path (ok img) = ok img
  image_or_new path (err e) = ok (new path)
  image_or_new path panic = panic

  -- `Image::open_default`.
  unfoldable pub open_default : String → Outcome ⊥ Image
  unfolding open_image
  open_default path = image_or_new path (open_image path)

  image_or_new_iff :
      (path : String) (o : Outcome (ImageError IoError JsonError) Image) (img : Image)
      → (image_or_new path o ≡ ok img)
        ↔ ((o ≡ ok img) ⊎ ((e : ImageError IoError JsonError) × (o ≡ err e) × (new path ≡ img)))
  image_or_new_iff path (ok i) img =
      ((λ h. inl (cc)), elim [ inl h ↦ cc | inr t ↦ let (e, q, r) = t in cc ])
  image_or_new_iff path (err e) img =
      ((λ h. inr (e, refl, cc)), elim [ inl h ↦ cc | inr t ↦ let (e', q, r) = t in cc ])
  image_or_new_iff path panic img =
      ((λ h. cc), elim [ inl h ↦ cc | inr t ↦ let (e, q, r) = t in cc ])

  -- `open_default` returns the image that `open` reads, or the new one exactly where `open` fails, whether
  -- the file cannot be opened or is no image's text.
  pub open_default_iff :
      (path : String) (img : Image)
      → (open_default path ≡ ok img) ↔ (
          (open_image path ≡ ok img)
          ⊎ ((e : ImageError IoError JsonError) × (open_image path ≡ err e) × (new path ≡ img)))
  unfolding open_default
  open_default_iff path img = image_or_new_iff path (open_image path) img
