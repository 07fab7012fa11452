-- ===== src/Messaging/BackupTask/RoundTrip.antt =====
-- Tasks through their messages.
use web_cloud_disk.Base.{
  ℕ, ◌+◌, ◌*◌, ◌%◌, ◌^◌, ◌≤◌, ◌<◌, ◌≡◌, refl, true, [], ◌∷◌, Bytes, success, length, all, All, inl,
  inr, arith, ◌∙◌, beq,
}
use web_cloud_disk.Numbers.{max_u64}
use web_cloud_disk.Numbers.Hex.{is_xdigit}
use web_cloud_disk.Messaging.Json.{JsonLibrary, JsonLaws, Plain}
use web_cloud_disk.Messaging.BackupTask.{
  BackupTask, is_valid_hashcode, task_members, serialize_backup_task, supported, parse_backup_task,
  version_key, hashcode_key, size_key,
}

all-xdigit_ascii : (s : Bytes) → all is_xdigit s ≡ true → All (λ c. c < 128) s
all-xdigit_ascii [] h = tt
all-xdigit_ascii (c ∷ s) h = (ground arith, all-xdigit_ascii s (ground arith))

hashcode_ascii : (s : Bytes) → is_valid_hashcode s ≡ true → All (λ c. c < 128) s
unfolding is_valid_hashcode
hashcode_ascii s h = all-xdigit_ascii s (ground arith)

module _ {J : Type 0} (json : JsonLibrary J) (laws : JsonLaws json) where
  task-Plain :
      (t : BackupTask)
      → t.version ≤ max_u64
      → is_valid_hashcode t.hashcode ≡ true
      → t.size ≤ max_u64
      → All (Plain json) (task_members json t)
  task-Plain t v h s = (
    inl (t.version, v, refl),
    (inr (t.hashcode, hashcode_ascii t.hashcode h, refl), (inl (t.size, s, refl), tt)),
  )

  -- What the parser makes of a message with any version, a valid hash and a size.
  parse_message :
      (t : BackupTask)
      → t.version ≤ max_u64
      → is_valid_hashcode t.hashcode ≡ true
      → t.size ≤ max_u64
      → parse_backup_task json (json.dump (json.object (task_members json t)))
        ≡ supported (record t { version = t.version % 2 ^ 32 })
  unfolding parse_backup_task version_key hashcode_key size_key beq
  parse_message t v h s =
      let p = task-Plain t v h s in
      ground (
        arith,
        laws.parse_dump (task_members json t) p,
        laws.is_object_object (task_members json t),
        laws.member_object (task_members json t) version_key p,
        laws.member_object (task_members json t) hashcode_key p,
        laws.member_object (task_members json t) size_key p,
        laws.is_number_number t.version,
        laws.is_number_number t.size,
        laws.is_string_text t.hashcode,
        laws.get_u32_number t.version,
        laws.get_u64_number t.size s,
        laws.get_string_text t.hashcode,
      )

  -- A task that was serialised, with a 64-bit size, is parsed back as it was.
  pub parse-serialize :
      (t : BackupTask) (body : Bytes)
      → t.size ≤ max_u64
      → serialize_backup_task json t ≡ success body
      → parse_backup_task json body ≡ success t
  unfolding serialize_backup_task supported
  parse-serialize t body s h =
      let v : t.version ≡ 1 = ground arith in
      let valid : is_valid_hashcode t.hashcode ≡ true = ground arith in
      let text : json.dump (json.object (task_members json t)) ≡ body = ground arith in
      rw (← text) (parse_message t (omega arith) valid s ∙ ground arith)

  -- A message whose version is 1 plus a multiple of 2³² is taken for one of version 1: the version is
  -- cut to 32 bits before it is compared.
  pub parse_wrapped_version :
      (n : ℕ) (hashcode : Bytes) (size : ℕ)
      → 1 + n * 2 ^ 32 ≤ max_u64
      → is_valid_hashcode hashcode ≡ true
      → size ≤ max_u64
      → parse_backup_task json (
          json.dump (
            json.object (
              task_members json
                (record { version = 1 + n * 2 ^ 32; hashcode = hashcode; size = size }))))
        ≡ success (record { version = 1; hashcode = hashcode; size = size })
  unfolding supported
  parse_wrapped_version n hashcode size v h s =
      parse_message (record { version = 1 + n * 2 ^ 32; hashcode = hashcode; size = size }) v h s
      ∙ ground arith

module _ {J : Type 0} (json : JsonLibrary J) where
  -- Whatever text arrives, an accepted task has version 1 and a hash of 64 hexadecimal digits.
  pub parse-success :
      (body : Bytes) (t : BackupTask)
      → parse_backup_task json body ≡ success t
      → (t.version ≡ 1) × (length t.hashcode ≡ 64) × (all is_xdigit t.hashcode ≡ true)
  unfolding parse_backup_task supported is_valid_hashcode
  parse-success body t h = ground arith
