-- ===== src/Rpc/RoundTrip.antt =====
-- An upload and then a download of what it stored, on a disk that other requests write to as well and
-- with a database that keeps what it confirmed.
use web_cloud_disk.Base.{
  ℕ, ◌≡◌, ◌⊎◌, refl, sym, ap, ◌∙◌, true, Option, none, some, List, [], ◌∷◌, Bytes, Result, success,
  failure, length, inl, inr,
}
use web_cloud_disk.Flow.{Flow, answer, then_with, Exchange, Seen}
use web_cloud_disk.Backend.{Row, MySqlReply, Request, Reply, mysql}
use web_cloud_disk.Model.{FileInfo}
use web_cloud_disk.Repository.Files.{
  create_file_sql, find_owned_sql, read_created_file, read_one_file, read_one_file-some,
  row_to_file,
}
use web_cloud_disk.Security.Crypto.{Crypto}
use web_cloud_disk.Security.Sha256.{hex}
use web_cloud_disk.Storage.Disk.{Files, Leads, Leads-of_Safe, Leads-then_with}
use web_cloud_disk.Storage.Local.{file_storage, is_valid_hashcode}
use web_cloud_disk.Storage.Local.Publish.{Intact, Keeps, Rely}
use web_cloud_disk.Messaging.Json.{JsonLibrary}
use web_cloud_disk.Service.Files.{UploadedFile, sanitize_filename, upload}
use web_cloud_disk.Service.Files.Upload.{AtInsert, UploadOutcome, upload-Safe}
use web_cloud_disk.Service.Files.Recorded.{Recorded, upload-Recorded}
use web_cloud_disk.Rpc.Messages.{DownloadFileResponse}
use web_cloud_disk.Rpc.FileService.{rpc_download_file}
use web_cloud_disk.Rpc.Integrity.{Failed, Integrity, rpc_download_file-Delivered}

-- What MySQL promises of a row that nobody changes: after it confirmed the INSERT of a file with an ID,
-- the row that it answers a query for that ID and user with has its name and its hash. It may still fail
-- to answer, or answer with no row.
abbrev pub RemembersFiles :
    (Bytes → Bytes) → List (Exchange Request Reply) → Exchange Request Reply → Type 0
RemembersFiles escape past x =
    (user_id id size : ℕ) (name h : Bytes) (inserted found : MySqlReply)
    → Seen
        (record { command = mysql (create_file_sql escape user_id name h size); reply = inserted })
        past
    → read_created_file inserted ≡ success id
    → x ≡ record { command = mysql (find_owned_sql escape user_id id); reply = found }
    → (row : Row) (rest : List Row) → found.rows ≡ row ∷ rest
    → ((row 2).as_string ≡ name) × ((row 3).as_string ≡ h)

module _ {J : Type 0} (escape : Bytes → Bytes) (crypto : Crypto) (json : JsonLibrary J)
    (root : Bytes) (publisher : Option Bytes) (max_file_size user_id : ℕ) where
  -- The download after the upload; there is none after an upload that failed.
  abbrev pub download_after : Result UploadedFile → Flow Request Reply (Option DownloadFileResponse)
  download_after (failure e) = answer none
  download_after (success u) =
      then_with
        (rpc_download_file escape crypto json (file_storage root) publisher max_file_size user_id
          u.file_id)
        λ response. answer (some response)

  abbrev pub upload_then_download : Bytes → Bytes → Flow Request Reply (Option DownloadFileResponse)
  upload_then_download untrusted_filename content =
      then_with
        (upload escape crypto json (file_storage root) publisher max_file_size user_id
          untrusted_filename content)
        download_after

  -- The cleaned name and a content with the hash of what was uploaded, or an error.
  abbrev pub Returned :
      Bytes → Bytes → List (Exchange Request Reply) → Files → Option DownloadFileResponse → Type 0
  Returned name content past f none = Unit
  Returned name content past f (some response) =
      Failed response
      ⊎ ((response.filename ≡ name) × (hex crypto response.content ≡ hex crypto content))

  module _ (h drawn name content : Bytes) (valid : is_valid_hashcode h ≡ true)
      (hashed : hex crypto content ≡ success h)
      (Allowed : List (Exchange Request Reply) → Exchange Request Reply → Type 0)
      (remembers : (past : List (Exchange Request Reply)) (x : Exchange Request Reply)
        → Allowed past x
        → RemembersFiles escape past x) where
    -- The file that the database names is the one that was recorded.
    same_file :
        (past : List (Exchange Request Reply)) (id : ℕ) (inserted found : MySqlReply)
        (file : FileInfo)
        → Seen
            (record {
              command = mysql (create_file_sql escape user_id name h (length content));
              reply = inserted;
            })
            past
        → read_created_file inserted ≡ success id
        → Allowed past
            (record { command = mysql (find_owned_sql escape user_id id); reply = found })
        → read_one_file found ≡ success (some file)
        → (file.filename ≡ name) × (file.hashcode ≡ h)
    unfolding row_to_file
    same_file past id inserted found file seen created allowed read =
        let (row, rest, rows, named) = read_one_file-some found file read in
        let (n, k) =
          remembers past _ allowed user_id id (length content) name h inserted found seen created
            refl row rest rows in
        (ap FileInfo.filename (sym named) ∙ n, ap FileInfo.hashcode (sym named) ∙ k)

    abbrev Relies : Files → Files → Type 0
    Relies = Rely crypto root h drawn valid

    delivered-Returned :
        (before past : List (Exchange Request Reply)) (f : Files) (id : ℕ) (inserted : MySqlReply)
        (response : DownloadFileResponse)
        → Seen
            (record {
              command = mysql (create_file_sql escape user_id name h (length content));
              reply = inserted;
            })
            before
        → read_created_file inserted ≡ success id
        → Integrity escape crypto json root publisher max_file_size user_id id drawn Relies
            (λ g g' k. k.0)
            Allowed
            before
            past
            f
            response
        → Returned name content past f (some response)
    delivered-Returned before past f id inserted response seen created (inl failed) = inl failed
    delivered-Returned before past f id inserted response seen created
          (inr (task, file, asked, allowed, read, named, whole)) =
        let (n, k) = same_file before id inserted task file seen created allowed read in
        inr (named ∙ n, whole ∙ ap success k ∙ sym hashed)

    after-Returned :
        (past : List (Exchange Request Reply)) (f : Files) (r : Result UploadedFile)
        → UploadOutcome escape crypto json root publisher max_file_size h drawn name user_id
            (length content)
            valid
            f
            r
        → Recorded escape crypto json
            (file_storage root)
            publisher
            max_file_size
            h
            name
            user_id
            (length content)
            past
            r
        → Leads drawn Relies Allowed (Returned name content) past f (download_after r)
    after-Returned past f (failure e) q p = tt
    after-Returned past f (success u) q (inserted, seen, created) =
        Leads-then_with drawn Relies Allowed
          (Integrity escape crypto json root publisher max_file_size user_id u.file_id drawn Relies
            (λ g g' k. k.0) Allowed past)
          (Returned name content) past f _ _
          (rpc_download_file-Delivered escape crypto json root publisher max_file_size user_id
            u.file_id drawn Relies (λ g g' k. k.0) Allowed past f q.1)
          (λ past' f' response i.
            delivered-Returned past past' f' u.file_id inserted response seen created i)

    -- On a disk whose contents are intact, while other requests keep contents intact and in place and draw
    -- other temporary names, with a database that answers a query for a file, when it answers with a row,
    -- with what it has confirmed for that user and ID: after an upload that succeeded, the download of the
    -- ID that it returned gives an error, or the cleaned name and a content with the hash of what was
    -- uploaded.
    pub upload_then_download-Returned :
        (untrusted_filename : Bytes) (f : Files)
        → sanitize_filename untrusted_filename ≡ success name
        → Intact crypto root f
        → Leads drawn Relies Allowed
            (Returned name content)
            []
            f
            (upload_then_download untrusted_filename content)
    upload_then_download-Returned untrusted_filename f sanitized i =
        Leads-then_with drawn Relies Allowed _ (Returned name content) [] f _ download_after
          (Leads-of_Safe drawn Relies Allowed (Keeps crypto root)
            (AtInsert escape crypto json root publisher max_file_size h drawn name user_id
              (length content) valid)
            (UploadOutcome escape crypto json root publisher max_file_size h drawn name user_id
              (length content) valid)
            (Recorded escape crypto json (file_storage root) publisher max_file_size h name user_id
              (length content))
            [] f
            (upload escape crypto json (file_storage root) publisher max_file_size user_id
              untrusted_filename content)
            (upload-Safe escape crypto json root publisher max_file_size h drawn name user_id
              (length content) valid untrusted_filename content refl sanitized hashed f i)
            (upload-Recorded escape crypto json (file_storage root) publisher max_file_size h name
              user_id (length content) untrusted_filename content refl sanitized hashed))
          (λ past f' r q. after-Returned past f' r q.0 q.1)
