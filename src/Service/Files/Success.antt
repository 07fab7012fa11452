-- ===== src/Service/Files/Success.antt =====
-- Uploads on a disk and a database that work.
use web_cloud_disk.Base.{
  ℕ, ◌≤◌, ◌≡◌, ◌≢◌, refl, true, false, Option, none, some, List, [], ◌++◌, ◌∷◌, Bytes, Result,
  success, failure, ltb, length, Bool-cases, inl, inr, arith,
}
use web_cloud_disk.Flow.{Flow, answer, call, ◌>>=◌, then_with, Exchange, Under}
use web_cloud_disk.Backend.{
  Filled, Request, Reply, Task, mysql, compute, rand_bytes, open_truncate, write_flush, rename,
}
use web_cloud_disk.Repository.Files.{create_file, read_created_file}
use web_cloud_disk.Security.Crypto.{Crypto, CryptoLaws}
use web_cloud_disk.Security.Sha256.{hex}
use web_cloud_disk.Storage.Paths.{◌//◌}
use web_cloud_disk.Storage.Local.{
  FileStorage, is_valid_hashcode, path_for, temporary_path, temporary_path_of, write_and_publish,
  store_if_absent,
}
use web_cloud_disk.Messaging.Json.{JsonLibrary}
use web_cloud_disk.Service.Files.Granted.{hash_valid}
use web_cloud_disk.Service.Files.{
  UploadedFile, sanitize_filename, try_publish_backup, record_upload, upload,
}

-- Random bytes are drawn, temporary files opened, written and renamed, and INSERTs confirmed. All else may
-- reply as it will.
abbrev pub Works : (c : Request) → Reply c → Type 0
Works (rand_bytes n) r = r ≢ none
Works (open_truncate p) r = r ≡ true
Works (write_flush p s) r = r ≡ true
Works (rename p q) r = r ≡ true
Works (mysql sql) r = (id : ℕ) × (read_created_file r ≡ success id)
Works _ r = Unit

abbrev pub Working : List (Exchange Request Reply) → Exchange Request Reply → Type 0
Working past x = Works x.command x.reply

-- A success whose value meets `Q`.
abbrev pub Succeeds : {A : Type 0} → (A → Type 0) → Result A → Type 0
Succeeds Q (success a) = Q a
Succeeds Q (failure e) = ⊥

abbrev Any : {A : Type 0} → A → Type 0
Any a = Unit {0}

abbrev Ends :
    {A : Type 0} → (A → Type 0) → List (Exchange Request Reply) → Flow Request Reply A → Type 0
Ends Q past m = Under Working (λ past' a. Q a) past m

Ends->>= :
    {A B : Type 0} (Q : A → Type 0) (P : B → Type 0) (past : List (Exchange Request Reply))
    (m : Task A) (k : A → Task B)
    → Ends (Succeeds Q) past m
    → ((past' : List (Exchange Request Reply)) (a : A) → Q a → Ends (Succeeds P) past' (k a))
    → Ends (Succeeds P) past (m >>= k)
Ends->>= Q P past (answer (success a)) k h ok = ok past a h
Ends->>= Q P past (answer (failure e)) k h ok = absurd h
Ends->>= Q P past (call c f) k h ok =
    λ r w. Ends->>= Q P (past ++ record { command = c; reply = r } ∷ []) (f r) k (h r w) ok

Ends-then_with :
    {A B : Type 0} (P : B → Type 0) (past : List (Exchange Request Reply))
    (m : Flow Request Reply A) (k : A → Flow Request Reply B)
    → ((past' : List (Exchange Request Reply)) (a : A) → Ends P past' (k a))
    → Ends P past (then_with m k)
Ends-then_with P past (answer a) k ok = ok past a
Ends-then_with P past (call c f) k ok =
    λ r w. Ends-then_with P (past ++ record { command = c; reply = r } ∷ []) (f r) k ok

write_and_publish-Ends :
    (past : List (Exchange Request Reply)) (temp final content : Bytes)
    → Ends (Succeeds Any) past (write_and_publish temp final content)
unfolding write_and_publish
write_and_publish-Ends past temp final content =
    λ opened o. rw (o, Under) λ written w. rw (w, Under) λ renamed r. rw (r, Under) tt

drawn-Ends :
    (s : FileStorage) (past : List (Exchange Request Reply)) (h content : Bytes)
    (r : Option (Filled 8))
    → r ≢ none
    → Ends (Succeeds Any) past (
        answer (temporary_path_of s h r) >>= λ temp_path.
        write_and_publish temp_path (s.root // h) content)
unfolding temporary_path_of
drawn-Ends s past h content none given = absurd (given refl)
drawn-Ends s past h content (some b) given = write_and_publish-Ends past _ _ _

store_if_absent-Ends :
    (s : FileStorage) (past : List (Exchange Request Reply)) (h content : Bytes)
    → is_valid_hashcode h ≡ true
    → Ends (Succeeds Any) past (store_if_absent s h content)
unfolding store_if_absent path_for temporary_path
store_if_absent-Ends s past h content valid = rw valid λ status u.
    elim (Bool-cases status.regular) [
      | inl e ↦ rw (e, Under) tt
      | inr e ↦ rw (e, Under) λ r given. drawn-Ends s _ h content r given
    ]

module _ {J : Type 0} (escape : Bytes → Bytes) (crypto : Crypto) (json : JsonLibrary J)
    (s : FileStorage) (publisher : Option Bytes) (max_file_size : ℕ) where
  abbrev pub Named : Bytes → UploadedFile → Type 0
  Named name u = u.filename ≡ name

  created-Ends :
      (past : List (Exchange Request Reply)) (name h : Bytes) (size : ℕ) (r : Result ℕ) (id : ℕ)
      → r ≡ success id
      → Ends (Succeeds (Named name)) past (
          answer r >>= λ file_id. call compute λ u.
            then_with
              (try_publish_backup json publisher h size)
              λ v. answer (success (record { file_id = file_id; filename = name })))
  created-Ends past name h size (failure e) id bad = absurd (cc bad)
  created-Ends past name h size (success file_id) id e = λ u w.
      Ends-then_with (Succeeds (Named name)) _ (try_publish_backup json publisher h size) _
        (λ past' v. refl)

  -- Whatever the publisher of backups does, an upload of a content within the limit, with a good name,
  -- that can be hashed, succeeds under its cleaned name when the disk and the database do what they are asked.
  pub upload-Succeeds :
      CryptoLaws crypto
      → (user_id : ℕ) (untrusted_filename content name h : Bytes) → length content ≤ max_file_size
      → sanitize_filename untrusted_filename ≡ success name
      → hex crypto content ≡ success h
      → Under Working
          (λ past r. Succeeds (Named name) r)
          []
          (upload escape crypto json s publisher max_file_size user_id untrusted_filename content)
  unfolding upload record_upload create_file
  upload-Succeeds laws user_id untrusted_filename content name h fits sanitized hashed =
      let small : ltb max_file_size (length content) ≡ false = ground arith in
      rw (small, sanitized, hashed, ◌>>=◌)
        (Ends->>= Any (Named name) [] (store_if_absent s h content) _
          (store_if_absent-Ends s [] h content (hash_valid crypto laws content h hashed))
          (λ past stored u task (id, confirmed).
            created-Ends _ name h (length content) (read_created_file task) id confirmed))
