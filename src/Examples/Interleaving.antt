-- ===== src/Examples/Interleaving.antt =====
-- Two uploads of the same content at the same time.
use web_cloud_disk.Base.{
  ◌≡◌, ◌≢◌, ap, sym, Bool, true, false, Option, none, some, [], ◌∷◌, Bytes, success, All, arith,
  ◌<◌, length, beq, contains, refl,
}
use web_cloud_disk.Security.Sha256.{hex, print_digest}
use web_cloud_disk.Flow.{answer}
use web_cloud_disk.Backend.{FileStatus, Filled, MySqlReply}
use web_cloud_disk.Repository.Files.{create_file, read_created_file}
use web_cloud_disk.Storage.Disk.{Files, put}
use web_cloud_disk.Storage.Interleaving.{Reach, start, later, pick}
use web_cloud_disk.Storage.Paths.{◌//◌, has_filename}
use web_cloud_disk.Storage.Local.{
  file_storage, path_for, is_valid_hashcode, temporary_path, temporary_path_of, store_if_absent,
  write_and_publish, temporary_name, tmp_name,
}
use web_cloud_disk.Numbers.Hex.{hex_text}
use web_cloud_disk.Service.Files.{
  sanitize_filename, upload, record_upload, try_publish_backup, base_name, find_last_slash,
  bad_name, dot, dot_dot,
}
use web_cloud_disk.Service.Files.Granted.{UploadCall}
use web_cloud_disk.Service.Files.Interleaved.{
  Uploads, Elsewhere, started, Consistent, uploads-Consistent,
}
use web_cloud_disk.Service.Files.Store.{Still, Refines, uploads-Refines}
use web_cloud_disk.Examples.Libraries.{crypto, crypto_laws, json, escape}
use web_cloud_disk.Examples.Contents.{root, content, empty_disk, empty_disk-Intact, untrusted, name}

not_there : false ≢ true
not_there e = absurd (cc e)

nothing_there : false ≡ true → empty_disk root ≢ none
nothing_there e = absurd (not_there e)

abbrev two : Discrete Bool
two true true = yes refl
two false false = yes refl
two true false = no (λ e. not_there (sym e))
two false true = no not_there

abbrev calls : Bool → UploadCall
calls b = record { user_id = 7; untrusted_filename = untrusted; content = content }

abbrev draws : Bool → Bytes
draws true = 1 ∷ 2 ∷ 3 ∷ 4 ∷ 5 ∷ 6 ∷ 7 ∷ 8 ∷ []
draws false = 8 ∷ 7 ∷ 6 ∷ 5 ∷ 4 ∷ 3 ∷ 2 ∷ 1 ∷ []

abbrev Reaches :
    (Files → Files → Type 0) → Uploads escape crypto json root none 1000 two calls draws → Type 0
Reaches env =
    Reach two draws env (started escape crypto json root none 1000 two calls draws empty_disk)

abbrev bytes_of : (b : Bytes) → length b ≡ 8 → Filled 8
bytes_of b e = record { bytes = b; size = e }

drawn_bytes :
    (b : Bytes) (e : length b ≡ 8) (c : Filled 8) → some (bytes_of b e) ≡ some c → c.bytes ≡ b
drawn_bytes b e c p = ap (λ (o : Option (Filled 8)). elim o [ none ↦ b | some x ↦ x.bytes ]) (sym p)

abbrev missing : FileStatus
missing = record { regular = false; error = false }

abbrev inserted : MySqlReply
inserted = record {
  state_success = true;
  is_error_packet = false;
  error_code = 0;
  get_result = false;
  rows = [];
  last_insert_id = 3;
}

-- Their steps alternate up to the renaming of both temporary files; then the first is recorded.
unfoldable one_run :
    (env : Files → Files → Type 0)
    → (t : Uploads escape crypto json root none 1000 two calls draws) × Reaches env t
unfolding upload sanitize_filename hex print_digest store_if_absent path_for is_valid_hashcode
    hex_text file_storage base_name find_last_slash bad_name dot dot_dot beq contains temporary_path
    temporary_path_of write_and_publish put record_upload create_file read_created_file
    try_publish_backup ◌//◌ temporary_name has_filename tmp_name
one_run env = (
  _,
  later
      (later
        (later
          (later
            (later
              (later
                (later
                  (later
                    (later
                      (later
                        (later
                          (later start
                            (pick true _ _ missing empty_disk refl (refl, nothing_there)))
                          (pick false _ _ missing empty_disk refl (refl, nothing_there)))
                        (pick true _ _ (some (bytes_of (draws true) refl)) empty_disk refl
                          (refl, drawn_bytes _ refl)))
                      (pick false _ _ (some (bytes_of (draws false) refl)) empty_disk refl
                        (refl, drawn_bytes _ refl)))
                    (pick true _ _ true _ refl refl))
                  (pick false _ _ true _ refl refl))
                (pick true _ _ true _ refl refl))
              (pick false _ _ true _ refl refl))
            (pick true _ _ true _ refl (content, refl, refl)))
          (pick false _ _ true _ refl (content, refl, refl)))
        (pick true _ _ inserted _ refl refl))
      (pick true _ _ tt _ refl refl),
)

draws_bytes : (i : Bool) → All (λ b. b < 256) (draws i)
draws_bytes true = omega arith
draws_bytes false = omega arith

draws_apart :
    (i j : Bool)
    → i ≢ j
    → hex crypto (calls i).content ≡ hex crypto (calls j).content
    → draws i ≢ draws j
draws_apart true true ne same e = ne refl
draws_apart false false ne same e = ne refl
draws_apart true false ne same e = absurd (cc e)
draws_apart false true ne same e = absurd (cc e)

uploads_example :
    Consistent escape crypto json root none 1000 two calls draws empty_disk
      (one_run (Elsewhere crypto root calls draws)).0
uploads_example =
    uploads-Consistent escape crypto json root none 1000 two calls draws crypto_laws draws_bytes
      draws_apart empty_disk empty_disk-Intact (one_run (Elsewhere crypto root calls draws)).1

hash_set_example :
    Refines escape crypto json root none 1000 two calls draws
      (started escape crypto json root none 1000 two calls draws empty_disk)
      (one_run Still).0
hash_set_example =
    uploads-Refines escape crypto json root none 1000 two calls draws crypto_laws draws_bytes
      draws_apart empty_disk empty_disk-Intact start (one_run Still).1

one_run_end :
    (one_run Still).0.flows true ≡ answer (success (record { file_id = 3; filename = name }))
unfolding one_run
one_run_end = refl
