-- ===== src/Service/Files/Download.antt =====
-- What a download hands out.
use web_cloud_disk.Base.{
  ℕ, ◌≡◌, refl, true, not, ◌&&◌, Option, none, some, List, [], ◌∷◌, Bytes, codes, AppError, Result,
  success, failure, arith, Bool-cases, Result-cases, inl, inr,
}
use web_cloud_disk.Model.{FileInfo}
use web_cloud_disk.Flow.{answer, ◌>>=◌, Exchange, Ensures}
use web_cloud_disk.Backend.{FileStatus, MySqlReply, Request, Reply, mysql, is_regular_file}
use web_cloud_disk.Repository.Files.{find_owned_sql, find_owned, read_one_file}
use web_cloud_disk.Storage.Local.{FileStorage, path_for, exists}
use web_cloud_disk.Service.Files.{DownloadFile, prepare_download, check_download, find_download}

abbrev pub file_not_found : AppError
file_not_found = record { status_code = 404; message = codes "File not found" }

module _ (escape : Bytes → Bytes) (s : FileStorage) (user_id file_id : ℕ) where
  abbrev query : MySqlReply → Exchange Request Reply
  query task = record { command = mysql (find_owned_sql escape user_id file_id); reply = task }

  -- The two exchanges of a successful download: the query for the file among the user's own, and the
  -- look at the path of its content.
  pub record Prepared (past : List (Exchange Request Reply)) (d : DownloadFile) : Type 0 where
    pub task : MySqlReply
    pub file : FileInfo
    pub status : FileStatus
    pub exchanged :
        past ≡ query task ∷ record { command = is_regular_file d.path; reply = status } ∷ []
    pub found : read_one_file task ≡ success (some file)
    pub named : d.filename ≡ file.filename
    pub placed : path_for s file.hashcode ≡ success d.path
    pub there : status.regular ≡ true

  abbrev pub DownloadOutcome : List (Exchange Request Reply) → Result DownloadFile → Type 0
  DownloadOutcome past (success d) = Prepared past d
  DownloadOutcome past (failure e) = e.status_code ≡ 404 → e ≡ file_not_found

  prepare_outcome :
      (task : MySqlReply) (file : FileInfo)
      → read_one_file task ≡ success (some file)
      → Ensures DownloadOutcome (query task ∷ []) (prepare_download escape s file)
  unfolding prepare_download exists
  prepare_outcome task file found = elim (Result-cases (path_for s file.hashcode)) [
    | inr (x, e) ↦ rw (e, prepare_download) λ k. refl
    | inl (path, e) ↦
        rw (e, prepare_download)
          (rw (e, exists)
            λ st. elim (Bool-cases (st.regular && not st.error)) [
              | inl b ↦ rw b (record {
                task = task;
                file = file;
                status = st;
                exchanged = refl;
                found = found;
                named = refl;
                placed = e;
                there = ground arith;
              })
              | inr b ↦ rw b λ k. refl
            ])
  ]

  found_outcome :
      (task : MySqlReply) (r : Result (Option FileInfo))
      → read_one_file task ≡ r
      → Ensures DownloadOutcome (query task ∷ []) (answer r >>= check_download escape s)
  unfolding check_download
  found_outcome task (failure x) e = unfold read_one_file in λ k. absurd (ground (arith, e))
  found_outcome task (success none) e = λ k. refl
  found_outcome task (success (some file)) e = prepare_outcome task file e

  -- Whatever the surroundings reply, a download that succeeds has asked for the file ID among the
  -- user's own files and names the file and the content's path of the row that came back, after it saw
  -- a regular file there; and every 404 is the same error, whether there is no such file, it is another
  -- user's, or its content is missing.
  pub find_download-DownloadOutcome :
      Ensures DownloadOutcome [] (find_download escape s user_id file_id)
  unfolding find_download find_owned
  find_download-DownloadOutcome = λ task. found_outcome task (read_one_file task) refl
