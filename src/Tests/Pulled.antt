-- ===== src/Tests/Pulled.antt =====
-- A manifest that is put into the image registry and asked for.
use rust4eska.Prelude.{◌≡◌, ◌⊎◌, ◌++◌, none, refl, Text, text, some, [], ◌∷◌, ok, inr}
unfoldable use rust4eska.Prelude.{decimal}
use rust4eska.Backend.Memory.{memory}
use rust4eska.Crypto.Toy.{toy}
use rust4eska.Files.Memory.{memory_disk}
use rust4eska.Actions.{◌>>=◌}
use rust4eska.Images.{RegistryState, Response, built, ok_200, on_meta}
use rust4eska.Images.Blobs.{Body, bytes}
use rust4eska.Images.Manifests.{put_manifest, get_manifest, save_manifest, put_answer, record_of}
use rust4eska.Images.Pulls.{get_manifest-put_manifest}
use rust4eska.Tests.Sample.{store}

abbrev state : RegistryState memory memory_disk
state = record { root = []; store = store; fs = [] }

abbrev body : Body
body = ok (bytes (text "{}")) ∷ []

abbrev type_name : Text
type_name = text "application/json"

puts :
    (put_manifest toy 9 (text "team/web") (text "v1") (some type_name) body state).0
    ≡ ok (put_answer (record_of toy 9 (text "team/web") (some type_name) (text "{}")) (text "v1"))
unfolding put_manifest built ◌>>=◌ on_meta save_manifest decimal
puts = refl

get_manifest-put_manifest_example :
    let after = (put_manifest toy 9 (text "team/web") (text "v1") (some type_name) body state).1 in
    (response : Response) × (get_manifest {B = memory} {D = memory_disk}
        (text "team/web")
        (text "v1")
        after
      ≡ (ok response, after))
    × (response.status ≡ ok_200)
    × (response.body ≡ text "{}")
    × (response.content_length ≡ some 2)
    × (response.content_digest ≡ some (text "sha256:" ++ toy.sha256 (text "{}")))
    × (((media_type : Text) × (some type_name ≡ some media_type)
          × (response.content_type ≡ some media_type))
        ⊎ ((some type_name ≡ none)
            × (response.content_type ≡ some (text "application/vnd.oci.image.manifest.v1+json"))))
get_manifest-put_manifest_example =
    get_manifest-put_manifest toy 9 (text "team/web") (text "v1") (some type_name) body (text "{}")
      (text "v1")
      (put_answer (record_of toy 9 (text "team/web") (some type_name) (text "{}")) (text "v1"))
      state refl (inr (refl, refl)) puts refl
