-- ===== src/Images/Escape.antt =====
-- What `patch_upload` of crates/r4a-git-registry/src/registry.rs writes, and where the id leads it.
use rust4eska.Prelude.{◌≡◌, Text, text_eq, nat_eq, some, [], ◌∷◌, ◌++◌, ok, err}
use rust4eska.Backend.{Backend}
use rust4eska.Files.{Disk, Place}
use rust4eska.Images.Blobs.{Body, bytes, trailers}

-- the bytes of the frames
abbrev pub sent : Body → Text
sent [] = []
sent (ok (bytes b) ∷ body) = b ++ sent body
sent (ok trailers ∷ body) = sent body
sent (err e ∷ body) = []

module _ (D : Disk) (place : Place) where
  -- a file with these bytes at the place
  abbrev There : Text → D.Fs → Type 0
  There content fs = D.file place fs ≡ some content
