-- ===== src/File/Uploads/Whole.antt =====
-- Uploads that stop at one that fails: what came before it is kept, and of it nothing is.
use nest_rest_backend_templa.Prelude.{
  ℕ, suc, ◌+◌, String, ◌≡◌, refl, sym, ap, ◌∙◌, ◌⊎◌, inl, inr, List, [], ◌∷◌, ◌++◌, length, arith,
}
use nest_rest_backend_templa.Exec.{Exec, Result, ok, throw, Thrown, continue, pure, ◌>>=◌}
use nest_rest_backend_templa.File.Store.{FileStore, File}
use nest_rest_backend_templa.File.Adapter.{FilePlatform, get_file_path}
use nest_rest_backend_templa.File.Uploads.Filed.{IsFiled, upload_one-IsFiled}
use nest_rest_backend_templa.File.Uploads.{
  UploadFileBody, UploadOutside, save_upload, upload_one, upload_from, committed, transaction,
}

-- The two stores have the same rows.
abbrev pub SameTables : FileStore → FileStore → Type 0
SameTables s t = (s.files ≡ t.files) × (s.versions ≡ t.versions)

-- One file for each upload, filed under its name, module and external id.
abbrev pub AllFiled : List UploadFileBody → List File → Type 0
AllFiled [] [] = Unit
AllFiled (body ∷ bodies) (file ∷ files) = IsFiled body file × AllFiled bodies files
AllFiled bodies files = ⊥

committed-SameTables :
    {A : Type 0} (s : FileStore) (r : Result A) (t : FileStore) (e : Thrown)
    → (committed s (r, t)).0 ≡ throw e
    → SameTables (committed s (r, t)).1 s
committed-SameTables s (ok a) t e h = absurd (ground (arith, h))
committed-SameTables s (throw e') t e h = (refl, refl)

module _ (p : FilePlatform) (user_id : String) where
  at_path-SameTables :
      (o : UploadOutside) (body : UploadFileBody) (s : FileStore) (path : Result String)
      (e : Thrown)
      → (continue path (λ full_path. transaction (save_upload o user_id full_path body)) s).0
        ≡ throw e
      → SameTables
          (continue path (λ full_path. transaction (save_upload o user_id full_path body)) s).1
          s
  at_path-SameTables o body s (throw t) e h = (refl, refl)
  at_path-SameTables o body s (ok full_path) e h =
      committed-SameTables s (save_upload o user_id full_path body s).0
        (save_upload o user_id full_path body s).1 e h

  upload_one-SameTables :
      (o : UploadOutside) (body : UploadFileBody) (s : FileStore) (e : Thrown)
      → (upload_one p o user_id body s).0 ≡ throw e
      → SameTables (upload_one p o user_id body s).1 s
  unfolding upload_one
  upload_one-SameTables o body s =
      at_path-SameTables o body s
        (get_file_path p user_id body.name body.file_module body.external_id)

  module _ (o : ℕ → UploadOutside) where
    -- How uploads end: all of them succeed, or one fails and leaves the tables to those before it.
    abbrev pub Ended : ℕ → List UploadFileBody → FileStore → Result (List File) × FileStore → Type 0
    Ended i bodies s out =
        ((files : List File) × (out.0 ≡ ok files) × AllFiled bodies files)
        ⊎ ((before : List UploadFileBody) × (body : UploadFileBody) × (after : List UploadFileBody)
            × (files : List File) × (t : FileStore) × (e : Thrown) × (bodies
                ≡ before ++ body ∷ after)
            × (upload_from p o user_id i before s ≡ (ok files, t))
            × ((upload_one p (o (i + length before)) user_id body t).0 ≡ throw e)
            × (out.0 ≡ throw e)
            × SameTables out.1 t)

    abbrev rest : File → ℕ → List UploadFileBody → Exec FileStore (List File)
    rest file i bodies = upload_from p o user_id (suc i) bodies >>= λ files. pure (file ∷ files)

    with_first :
        (i : ℕ) (body : UploadFileBody) (bodies : List UploadFileBody) (s : FileStore) (file : File)
        (t : FileStore) (out : Result (List File)) (u : FileStore)
        → upload_one p (o i) user_id body s ≡ (ok file, t)
        → Ended (suc i) bodies t (out, u)
        → Ended i (body ∷ bodies) s (continue out (λ files. pure (file ∷ files)) u)
    unfolding upload_from
    with_first i body bodies s file t out u one (inl (files, all, same)) = inl (
      file ∷ files,
      rw all refl,
      (upload_one-IsFiled (o i) user_id body p s file (ap (λ w. w.0) one), same),
    )
    with_first i body bodies s file t out u one
          (inr (before, failing, after, files, v, e, parts, done, fails, thrown, same)) =
        inr (
          body ∷ before,
          failing,
          after,
          file ∷ files,
          v,
          e,
          ap (λ (bs : List UploadFileBody). body ∷ bs) parts,
          simp (one, done),
          ap (λ (k : ℕ). (upload_one p (o k) user_id failing v).0) (omega arith) ∙ fails,
          rw thrown refl,
          rw thrown same,
        )

    first_done :
        (i : ℕ) (body : UploadFileBody) (bodies : List UploadFileBody) (s : FileStore)
        (r : Result File) (t : FileStore)
        → upload_one p (o i) user_id body s ≡ (r, t)
        → ((u : FileStore) → Ended (suc i) bodies u (upload_from p o user_id (suc i) bodies u))
        → Ended i (body ∷ bodies) s (continue r (λ file. rest file i bodies) t)
    unfolding upload_from
    first_done i body bodies s (ok file) t one later =
        with_first i body bodies s file t (upload_from p o user_id (suc i) bodies t).0
          (upload_from p o user_id (suc i) bodies t).1 one (later t)
    first_done i body bodies s (throw e) t one later =
        let (files, versions) = upload_one-SameTables (o i) body s e (ap (λ w. w.0) one) in
        inr (
          [],
          body,
          bodies,
          [],
          s,
          e,
          refl,
          refl,
          ap (λ (k : ℕ). (upload_one p (o k) user_id body s).0) (omega arith) ∙ ap (λ w. w.0) one,
          refl,
          (sym (ap (λ w. w.1.files) one) ∙ files, sym (ap (λ w. w.1.versions) one) ∙ versions),
        )

    upload_from-Ended :
        (i : ℕ) (bodies : List UploadFileBody) (s : FileStore)
        → Ended i bodies s (upload_from p o user_id i bodies s)
    unfolding upload_from
    upload_from-Ended i [] s = inl ([], refl, tt)
    upload_from-Ended i (body ∷ bodies) s =
        first_done i body bodies s (upload_one p (o i) user_id body s).0
          (upload_one p (o i) user_id body s).1 refl (λ u. upload_from-Ended (suc i) bodies u)

    -- Uploads end in one of two ways: all succeed, and the answer has one file for each, in their
    -- order, under its name, module and external id; or one of them throws, and then that is what
    -- is thrown, those before it succeeded, and the tables are as those left them: of the upload
    -- that failed, and of those after it, no row stays.
    pub uploads_end_whole :
        (bodies : List UploadFileBody) (s : FileStore)
        → Ended 0 bodies s (upload_from p o user_id 0 bodies s)
    uploads_end_whole bodies s = upload_from-Ended 0 bodies s
