-- ===== src/Master/ImageStore.antt =====
-- src/exo/master/image_store.py, class `ImageStore`. Paths are texts and the directory is a
-- dictionary of them; how a path is made of its parts and the `split` of `str` are parameters. A
-- time is a number of some unit. New identifiers are arguments.
pub mod Expiry
mod Samples
use agent_setup.Base.{
  ℕ, ◌+◌, Option, none, some, List, [], ◌∷◌, String, leb, ltb, length, keep_if, if◌then◌else◌,
}
use agent_setup.Base.Eq.{◌==◌, text_eq}
use agent_setup.Base.Dict.{Dict, get, insert, without, values}
use agent_setup.Base.Result.{Result, ok, or_raise, index_error, ◌>>=◌}

pub record StoredImage : Type 0 where
  pub image_id : String
  pub file_path : String
  pub content_type : String
  pub expires_at : ℕ

-- `files` is what stands under the paths.
pub record ImageStore : Type 0 where
  pub default_expiry : ℕ
  pub images : Dict String StoredImage
  pub files : Dict String (List ℕ)

-- content_type.split('/')[1], where there is one, and storage_dir / f"{image_id}.{extension}".
pub record Paths : Type 0 where
  pub after_slash : String → Option String
  pub path_of : String → String → String

-- _content_type_to_extension, without the dot.
unfoldable pub extension_of : Paths → String → Result String
extension_of paths content_type = do
  ext ← or_raise (paths.after_slash content_type) index_error
  ok (if ext == "jpeg" then "jpg" else ext)

-- The image that is stored under a path, and the store after it.
abbrev pub stored_under :
    ImageStore → String → ℕ → List ℕ → String → (file_path : String) → StoredImage × ImageStore
stored_under s image_id now image_bytes content_type file_path =
    let stored : StoredImage = record {
      image_id = image_id;
      file_path = file_path;
      content_type = content_type;
      expires_at = now + s.default_expiry;
    } in
    (
      stored,
      record s {
        files = insert s.files file_path image_bytes;
        images = insert s.images image_id stored;
      },
    )

unfoldable pub store_image :
    Paths
    → ImageStore
    → (image_id : String) → (now : ℕ) → List ℕ
    → String
    → Result (StoredImage × ImageStore)
store_image paths s image_id now image_bytes content_type =
    extension_of paths content_type >>= λ extension.
    ok (stored_under s image_id now image_bytes content_type (paths.path_of image_id extension))

abbrev pub without_file : Dict String (List ℕ) → Option StoredImage → Dict String (List ℕ)
without_file files none = files
without_file files (some stored) = without files stored.file_path

-- _remove
unfoldable pub remove_image : ImageStore → String → ImageStore
remove_image s image_id = record s {
  images = without s.images image_id;
  files = without_file s.files (get s.images image_id);
}

abbrev pub unexpired :
    ImageStore
    → (image_id : String) → (now : ℕ) → Option StoredImage
    → Option StoredImage × ImageStore
unexpired s image_id now none = (none, s)
unexpired s image_id now (some stored) =
    if ltb stored.expires_at now then (none, remove_image s image_id) else (some stored, s)

unfoldable pub get_image :
    ImageStore → (image_id : String) → (now : ℕ) → Option StoredImage × ImageStore
get_image s image_id now = unexpired s image_id now (get s.images image_id)

unfoldable pub list_images : ImageStore → (now : ℕ) → List StoredImage
list_images s now = keep_if (λ (i : StoredImage). leb now i.expires_at) (values s.images)

unfoldable pub expired_ids : (now : ℕ) → Dict String StoredImage → List String
expired_ids now [] = []
expired_ids now ((image_id, stored) ∷ images) =
    let rest = expired_ids now images in if ltb stored.expires_at now then image_id ∷ rest else rest

unfoldable pub remove_all : ImageStore → List String → ImageStore
remove_all s [] = s
remove_all s (image_id ∷ ids) = remove_all (remove_image s image_id) ids

-- The number of images removed, and the store after it.
unfoldable pub cleanup_expired : ImageStore → (now : ℕ) → ℕ × ImageStore
cleanup_expired s now = (length (expired_ids now s.images), remove_all s (expired_ids now s.images))
