-- ===== src/Rpc/Integrity.antt =====
-- What the download handler delivers, on a disk that other requests write to as well.
use web_cloud_disk.Base.{
  ℕ, ◌≡◌, ◌≢◌, ◌⊎◌, refl, true, false, not, ◌&&◌, ◌||◌, ◌==◌, Option, none, some, List, [], Bytes,
  AppError, Result, success, failure, arith, ap, ◌∙◌, Bool-cases, Result-cases, inl, inr,
}
use web_cloud_disk.Model.{FileInfo}
use web_cloud_disk.Flow.{Flow, answer, ◌>>=◌, then_with, Exchange, Seen, Seen-append, Seen-last}
use web_cloud_disk.Backend.{Contents, MySqlReply, Request, Reply, mysql}
use web_cloud_disk.Repository.Files.{find_owned_sql, find_owned, read_one_file}
use web_cloud_disk.Repository.Users.{database_error}
use web_cloud_disk.Security.Crypto.{Crypto}
use web_cloud_disk.Security.Sha256.{hex}
use web_cloud_disk.Storage.Paths.{◌//◌}
use web_cloud_disk.Storage.Disk.{Files, Leads}
use web_cloud_disk.Storage.Local.{file_storage, is_valid_hashcode, path_for, exists}
use web_cloud_disk.Storage.Local.Publish.{Intact, Keeps}
use web_cloud_disk.Messaging.Json.{JsonLibrary}
use web_cloud_disk.Service.Files.{prepare_download, check_download, find_download}
use web_cloud_disk.Rpc.Messages.{DownloadFileResponse}
use web_cloud_disk.Rpc.FileService.{
  download_error, read_response, download_response, rpc_download_file,
}

-- An error, with a status other than 0.
abbrev pub Failed : DownloadFileResponse → Type 0
Failed response = (e : AppError) × (response ≡ download_error e) × (e.status_code ≢ 0)

module _ {J : Type 0} (escape : Bytes → Bytes) (crypto : Crypto) (json : JsonLibrary J)
    (root : Bytes) (publisher : Option Bytes) (max_file_size user_id file_id : ℕ) where
  abbrev asked : MySqlReply → Exchange Request Reply
  asked task = record { command = mysql (find_owned_sql escape user_id file_id); reply = task }

  path_for-success :
      (h path : Bytes)
      → path_for (file_storage root) h ≡ success path
      → (is_valid_hashcode h ≡ true) × (path ≡ root // h)
  unfolding path_for file_storage
  path_for-success h path e = (ground arith, ground arith)

  database-failure :
      (task : MySqlReply) (e : AppError) → read_one_file task ≡ failure e → e.status_code ≢ 0
  unfolding read_one_file database_error
  database-failure task e h = ground (arith, h)

  -- Every reply is allowed.
  abbrev pub Anything : List (Exchange Request Reply) → Exchange Request Reply → Type 0
  Anything past x = Unit

  -- A download after `before`, while the others keep at least contents intact.
  module _ (drawn : Bytes) (rely : Files → Files → Type 0)
      (into : (f f' : Files) → rely f f' → Keeps crypto root f f')
      (Allowed : List (Exchange Request Reply) → Exchange Request Reply → Type 0)
      (before : List (Exchange Request Reply)) where
    -- The file that the database named for this ID among the user's own, with the content of its hash.
    abbrev Delivered : List (Exchange Request Reply) → DownloadFileResponse → Type 0
    Delivered past response =
        (task : MySqlReply) × (file : FileInfo) × Seen (asked task) past
        × Allowed before (asked task)
        × (read_one_file task ≡ success (some file))
        × (response.filename ≡ file.filename)
        × (hex crypto response.content ≡ success file.hashcode)

    abbrev pub Integrity : List (Exchange Request Reply) → Files → DownloadFileResponse → Type 0
    Integrity past f response = Failed response ⊎ Delivered past response

    abbrev LeadsOn :
        List (Exchange Request Reply) → Files → Flow Request Reply DownloadFileResponse → Type 0
    LeadsOn = Leads drawn rely Allowed Integrity

    module _ (task : MySqlReply) (file : FileInfo)
        (found : read_one_file task ≡ success (some file))
        (valid : is_valid_hashcode file.hashcode ≡ true)
        (allowed : Allowed before (asked task)) where
      read_response-Integrity :
          (past : List (Exchange Request Reply)) (f : Files) (input : Option Contents)
          → Seen (asked task) past
          → Intact crypto root f
          → ((c : Contents)
              → input ≡ some c
              → c.bad ≡ false
              → f (root // file.hashcode) ≡ some c.content)
          → Integrity past f (read_response file.filename input)
      unfolding read_response
      read_response-Integrity past f none seen i got = inl (_, refl, λ e. absurd (omega arith))
      read_response-Integrity past f (some input) seen i got = elim (Bool-cases input.bad) [
        | inl b ↦ rw b (inl (_, refl, λ e. absurd (omega arith)))
        | inr b ↦ rw b (
            inr (
              task,
              file,
              seen,
              allowed,
              found,
              refl,
              i file.hashcode input.content valid (got input refl b),
            ))
      ]

      delivery :
          (past : List (Exchange Request Reply)) (f : Files)
          → Seen (asked task) past
          → Intact crypto root f
          → LeadsOn past f (
              download_response
                (success (record { filename = file.filename; path = root // file.hashcode })))
      unfolding download_response
      delivery past f seen i = λ f₁ k₁ u f₂ e₂ a₁ f₃ k₃ input f₄ (e₄, got) a₃.
          read_response-Integrity _ f₄ input
            (Seen-append _ _ _ (Seen-append (asked task) past _ seen))
            (rw e₄ ((into f₂ f₃ k₃).intact (rw e₂ ((into f f₁ k₁).intact i)))) (rw e₄ got)

      prepared :
          (past : List (Exchange Request Reply)) (f : Files)
          → Seen (asked task) past
          → Intact crypto root f
          → path_for (file_storage root) file.hashcode ≡ success (root // file.hashcode)
          → LeadsOn past f
              (then_with (prepare_download escape (file_storage root) file) download_response)
      unfolding prepare_download exists download_response
      prepared past f seen i e =
          rw (e, prepare_download)
            (rw (e, exists)
              λ f₁ k₁ st f₂ (e₂, there) a₁. elim (Bool-cases (st.regular && not st.error)) [
                | inr b ↦ rw (b, Leads) (inl (_, refl, λ n. absurd (omega arith)))
                | inl b ↦
                    rw (b, Leads)
                      (delivery _ f₂ (Seen-append (asked task) past _ seen)
                        (rw e₂ ((into f f₁ k₁).intact i)))
              ])

    checked :
        (past : List (Exchange Request Reply)) (f : Files) (task : MySqlReply)
        (found : Result (Option FileInfo))
        → read_one_file task ≡ found
        → Allowed before (asked task)
        → Seen (asked task) past
        → Intact crypto root f
        → LeadsOn past f (
            then_with
              (answer found >>= check_download escape (file_storage root))
              download_response)
    unfolding check_download download_response
    checked past f task (failure e) r allowed seen i = inl (e, refl, database-failure task e r)
    checked past f task (success none) r allowed seen i = inl (_, refl, λ n. absurd (omega arith))
    checked past f task (success (some file)) r allowed seen i =
        elim (Result-cases (path_for (file_storage root) file.hashcode)) [
          | inr (x, e) ↦ rw (e, prepare_download, Leads) (inl (_, refl, λ n. absurd (omega arith)))
          | inl (path, e) ↦
              let (valid, same) = path_for-success file.hashcode path e in
              prepared task file r valid allowed past f seen i (e ∙ ap success same)
        ]

    pub rpc_download_file-Delivered :
        (f : Files)
        → Intact crypto root f
        → LeadsOn before f (
            rpc_download_file escape crypto json
              (file_storage root)
              publisher
              max_file_size
              user_id
              file_id)
    unfolding rpc_download_file find_download find_owned
    rpc_download_file-Delivered f i = elim (Bool-cases (user_id == 0 || file_id == 0)) [
      | inl z ↦ rw z (inl (_, refl, λ n. absurd (omega arith)))
      | inr z ↦ rw z λ f₁ k₁ task f₂ e₂ allowed.
          checked _ f₂ task (read_one_file task) refl allowed (Seen-last before _)
            (rw e₂ ((into f f₁ k₁).intact i))
    ]

  -- On a disk whose contents are intact, while other requests keep them intact: whatever the database
  -- and the disk reply, the download handler either answers with an error, whose status is not 0, or
  -- delivers the name of the file that the database named among the user's own for this ID, and a
  -- content with the hash in that file's record.
  pub rpc_download_file-Integrity :
      (f : Files)
      → Intact crypto root f
      → Leads []
          (Keeps crypto root)
          Anything
          (Integrity [] (Keeps crypto root) (λ g g' k. k) Anything [])
          []
          f
          (rpc_download_file escape crypto json
            (file_storage root)
            publisher
            max_file_size
            user_id
            file_id)
  rpc_download_file-Integrity f i =
      rpc_download_file-Delivered [] (Keeps crypto root) (λ g g' k. k) Anything [] f i
