-- ===== src/Master/ImageStore/Samples.antt =====
-- The theorem on the image store at a concrete use.
use agent_setup.Base.{◌≡◌, refl, some, none, List, [], ◌∷◌, ltb, if◌then◌else◌, arith}
use agent_setup.Base.Dict.{get, insert}
use agent_setup.Base.Result.{ok}
use agent_setup.Master.ImageStore.{
  StoredImage, ImageStore, Paths, store_image, extension_of, get_image,
}
use agent_setup.Master.ImageStore.Expiry.{Action, stores, gets, cleans, act_all, get_image-stored}

abbrev paths : Paths
paths = record {
  after_slash = λ content_type. some "png";
  path_of = λ image_id extension. image_id;
}

abbrev bare : ImageStore
bare = record { default_expiry = 100; images = []; files = [] }

abbrev image : StoredImage
image = record { image_id = "i"; file_path = "i"; content_type = "image/png"; expires_at = 105 }

abbrev one_image : ImageStore
one_image = record bare { images = ("i", image) ∷ []; files = ("i", 1 ∷ 2 ∷ []) ∷ [] }

image_stored : store_image paths bare "i" 5 (1 ∷ 2 ∷ []) "image/png" ≡ ok (image, one_image)
unfolding store_image extension_of insert
image_stored = refl

abbrev uses : List Action
uses = cleans 20 ∷ stores 30 "j" (7 ∷ []) "image/png" ∷ gets 106 "i" ∷ cleans 200 ∷ []

get_image-stored_example :
    (get_image (act_all paths one_image uses) "i" 300).0
    ≡ (if ltb image.expires_at 300 then none else some image)
unfolding get
get_image-stored_example =
    get_image-stored paths bare one_image "i" 5 300 (1 ∷ 2 ∷ []) "image/png" image uses refl
      image_stored (tt, (refl, (tt, (tt, tt))))
      (omega arith, (omega arith, (omega arith, (omega arith, (omega arith, tt)))))
