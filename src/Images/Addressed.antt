-- ===== src/Images/Addressed.antt =====
-- What the actions of crates/r4a-git-registry/src/registry.rs on the disk do to the blobs.
use rust4eska.Prelude.{
  ℕ, ◌+◌, ◌≡◌, ◌≢◌, refl, ap, sym, ◌∙◌, inl, inr, Text, text, text_eq, nat_eq, some, eq_of_some, [],
  ◌∷◌, ◌++◌, Result, Result-cases, ok, err, eq_of_ok, err≢ok, Exec, Bool, Bool-cases, true, false,
  arith, list_beq_iff, ◌==◌, length, take, strip_prefix, strip_prefix-append,
}
use rust4eska.Actions.Keeping.{
  Keeps, Keeps-bind, Keeps-bind_reads, Keeps-pure, Keeps-lift, Keeps-reads, Leads, Leads-bind,
  Leads-bind_lift, Leads-then,
}
use rust4eska.Crypto.{Crypto}
use rust4eska.Files.{Disk, Place, parent}
use rust4eska.Images.{uploads_dir, hex_place, blob_path, validate_digest}
use rust4eska.Images.Blobs.{
  Body, bytes, trailers, write_frames, receive, discard, settle, sha256_file, store_blob,
  finish_upload, upload_found, complete_at,
}

length-take_two : (s : Text) → length (take 2 s) ≢ 8
length-take_two [] = ground arith
length-take_two (a ∷ []) = ground arith
length-take_two (a ∷ b ∷ s) = ground arith

-- An upload does not lie where a blob does.
pub upload≢hex_place :
    (root : Place) (name hex : Text) → (name ∷ uploads_dir root) ≢ hex_place root hex
upload≢hex_place root name hex e = length-take_two hex (ap length (sym (second e)))
  where
    second : (name ∷ uploads_dir root) ≡ hex_place root hex → text "_uploads" ≡ take 2 hex
    second e = cc

hex_place_injective : (root : Place) (a b : Text) → hex_place root a ≡ hex_place root b → a ≡ b
hex_place_injective root a b e = cc

module _ (D : Disk) (C : Crypto) (root : Place) where
  -- What lies where a blob of some digits lies has these as its digest.
  abbrev pub IsAddressed : D.Fs → Type 0
  IsAddressed fs =
      (hex content : Text) → D.file (hex_place root hex) fs ≡ some content → C.sha256 content ≡ hex

  -- an action that reaches the file at one place only
  abbrev pub Only : {A : Type 0} → Place → Exec D.Fs A → Type 0
  Only p m = (q : Place) (fs : D.Fs) → p ≢ q → D.file q (m fs).1 ≡ D.file q fs

  pub create_dir_all-Keeps : (place : Place) → Keeps IsAddressed (D.create_dir_all place)
  create_dir_all-Keeps place = record {
    kept = λ fs i hex content e.
        i hex content (sym (D.file-create_dir_all place (hex_place root hex) fs) ∙ e);
  }

  module _ (upload : Place) (apart : (hex : Text) → upload ≢ hex_place root hex) where
    pub Only-Keeps : {A : Type 0} {m : Exec D.Fs A} → Only upload m → Keeps IsAddressed m
    Only-Keeps {m} only = record {
      kept =
          λ fs i hex content e. i hex content (sym (only (hex_place root hex) fs (apart hex)) ∙ e);
    }

    write_all-Keeps : (b : Text) → Keeps IsAddressed (D.write_all upload b)
    write_all-Keeps b = Only-Keeps (λ q fs h. D.file-write_all_ne upload q b fs h)

    write_frames-Keeps : (body : Body) (n : ℕ) → Keeps IsAddressed (write_frames D upload body n)
    unfolding write_frames
    write_frames-Keeps [] n = Keeps-pure n
    write_frames-Keeps (err e ∷ body) n = Keeps-lift (err e)
    write_frames-Keeps (ok trailers ∷ body) n = write_frames-Keeps body n
    write_frames-Keeps (ok (bytes b) ∷ body) n =
        Keeps-bind (write_all-Keeps b) λ u. write_frames-Keeps body (n + length b)

    pub receive-Keeps :
        (create : Bool) (measure : D.Fs → Result ℕ) (body : Body)
        → Keeps IsAddressed (receive D create upload measure body)
    unfolding receive
    receive-Keeps create measure body =
        Keeps-bind (Only-Keeps (λ q fs h. D.file-open_append_ne create upload q fs h)) λ u.
          Keeps-bind (Keeps-reads measure) λ start.
            Keeps-bind (write_frames-Keeps body start) λ written.
              Keeps-bind (Only-Keeps (λ q fs h. D.file-flush upload q fs)) λ u. Keeps-pure written

    discard-Keeps : Keeps IsAddressed (discard D upload)
    discard-Keeps = Only-Keeps (λ q fs h. D.file-remove_file_ne upload q fs h)

    -- a file that is renamed to the place of its digest
    rename-IsAddressed :
        (hex content : Text) (fs : D.Fs)
        → D.file upload fs ≡ some content
        → C.sha256 content ≡ hex
        → IsAddressed fs
        → IsAddressed (D.rename upload (hex_place root hex) fs).1
    rename-IsAddressed hex content fs there is_hex i hex' content' e =
        elim (Bool-cases (hex == hex')) [
          | inl q ↦
              let same : hex' ≡ hex = sym ((list_beq_iff hex hex').0 q) in
              let e' : D.file (hex_place root hex) (D.rename upload (hex_place root hex) fs).1
                  ≡ some content' =
                ap
                  (λ (x : Text).
                    D.file (hex_place root x) (D.rename upload (hex_place root hex) fs).1)
                  (sym same)
                ∙ e in
              elim (D.file-rename upload (hex_place root hex) fs (apart hex)) [
                | inl moved ↦ ap C.sha256 (eq_of_some (sym e' ∙ moved ∙ there)) ∙ is_hex ∙ sym same
                | inr stays ↦ i hex content' (sym stays ∙ e') ∙ sym same
              ]
          | inr q ↦ i hex' content' (
              sym (
                D.file-rename_ne upload (hex_place root hex) (hex_place root hex') fs (apart hex')
                  (λ p. cc (q, (list_beq_iff hex hex').1 (hex_place_injective root hex hex' p))))
              ∙ e)
        ]

    -- a file whose digest is the one that is asked for
    settle-Leads :
        (hex content : Text) (there : Bool)
        → C.sha256 content ≡ hex
        → Leads
            (λ fs. IsAddressed fs × (D.file upload fs ≡ some content))
            IsAddressed
            (settle D upload (hex_place root hex) there)
    settle-Leads hex content true is_hex = record { led = λ fs j. (discard-Keeps).kept fs j.0 }
    settle-Leads hex content false is_hex = record {
      led = λ fs j. rename-IsAddressed hex content fs j.1 is_hex j.0;
    }

    -- what a digest that fits says of the place
    final_place :
        (expected h : Text) (final : Place)
        → expected ≡ text "sha256:" ++ h
        → blob_path root expected ≡ ok final
        → final ≡ hex_place root h
    unfolding blob_path validate_digest
    final_place expected h final e is_final =
        let cut : strip_prefix expected (text "sha256:") ≡ some h =
          rw e (strip_prefix-append (text "sha256:") h) in
        ground (arith, is_final, cut)

    store_blob-Leads :
        (repo expected content : Text)
        → expected ≡ text "sha256:" ++ C.sha256 content
        → Leads
            (λ fs. IsAddressed fs × (D.file upload fs ≡ some content))
            IsAddressed
            (store_blob D C root repo upload expected)
    store_blob-Leads repo expected content e =
        Leads-bind_lift _ (λ s j. j.0)
          λ final is_final.
            Leads-bind (λ s j. j.0) (create-Keeps (parent final))
              λ u.
                Leads-bind (λ s j. j.0) (Keeps-reads _)
                  λ there.
                    Leads-then
                      (rw (final_place expected (C.sha256 content) final e is_final)
                        (settle-Leads (C.sha256 content) content there refl))
                      λ u. Keeps-pure _
      where
        create-Keeps :
            (place : Place)
            → Keeps
                (λ fs. IsAddressed fs × (D.file upload fs ≡ some content))
                (D.create_dir_all place)
        create-Keeps place = record {
          kept = λ fs j. (
            (create_dir_all-Keeps place).kept fs j.0,
            D.file-create_dir_all place upload fs ∙ j.1,
          );
        }

    -- the digest is computed from what lies there
    sha256_file-found :
        (computed : Text) (fs : D.Fs)
        → sha256_file D C upload fs ≡ ok computed
        → (content : Text) × ((D.file upload fs ≡ some content)
            × (computed ≡ text "sha256:" ++ C.sha256 content))
    unfolding sha256_file
    sha256_file-found computed fs e = elim (Result-cases (D.read upload fs)) [
      | inl (failure, q) ↦ absurd (err≢ok (sym (ap digested q) ∙ e))
      | inr (content, q) ↦
          (content, (D.file-read upload content fs q, eq_of_ok (sym e ∙ ap digested q)))
    ]
      where
        digested : Result Text → Result Text
        digested (ok content) = ok (text "sha256:" ++ C.sha256 content)
        digested (err failure) = err failure

    finish_upload-IsAddressed :
        (repo expected computed : Text) (fs : D.Fs)
        → sha256_file D C upload fs ≡ ok computed
        → IsAddressed fs
        → IsAddressed (finish_upload D C root repo upload expected computed fs).1
    finish_upload-IsAddressed repo expected computed fs e i =
        elim (Bool-cases (computed == expected)) [
          | inl q ↦
              let (content, (there, is_digest)) = sha256_file-found computed fs e in
              rw q (
                (store_blob-Leads repo expected content
                    (sym ((list_beq_iff computed expected).0 q) ∙ is_digest)).led
                  fs (i, there))
          | inr q ↦ rw q ((Keeps-bind discard-Keeps (λ u. Keeps-pure _)).kept fs i)
        ]

    upload_found-Keeps :
        (repo expected : Text) (body : Body) (there : Bool)
        → Keeps IsAddressed (upload_found D C root repo upload expected body there)
    upload_found-Keeps repo expected body false = Keeps-pure _
    upload_found-Keeps repo expected body true = Keeps-bind (receive-Keeps false _ body) λ n.
        Keeps-bind_reads _
          (λ computed fs e i. finish_upload-IsAddressed repo expected computed fs e i)

    pub complete_at-Keeps :
        (repo expected : Text) (body : Body)
        → Keeps IsAddressed (complete_at D C root repo upload expected body)
    unfolding complete_at
    complete_at-Keeps repo expected body =
        Keeps-bind (Keeps-reads _) λ there. upload_found-Keeps repo expected body there
