-- ===== src/Storage/Local/Names.antt =====
-- Where contents and temporary files lie.
use web_cloud_disk.Base.{
  ◌≡◌, ◌≢◌, refl, true, false, [], ◌∷◌, ◌++◌, append_assoc, Bytes, arith, ◌∙◌, sym, length, All,
  ◌<◌,
}
use web_cloud_disk.Numbers.Hex.{hex_text, hex_text-injective}
use web_cloud_disk.Storage.Paths.{
  ◌//◌, folder, is_absolute, has_filename, append-cancel, join_relative, folder-append,
}
use web_cloud_disk.Storage.Local.{file_storage, tmp_name, is_valid_hashcode, temporary_name}

hash_relative : (k : Bytes) → is_valid_hashcode k ≡ true → is_absolute k ≡ false
unfolding is_valid_hashcode
hash_relative [] h = refl
hash_relative (c ∷ k) h = ground arith

name_relative :
    (k d : Bytes) → is_valid_hashcode k ≡ true → is_absolute (temporary_name k d) ≡ false
unfolding is_valid_hashcode temporary_name
name_relative [] d h = absurd (ground arith)
name_relative (c ∷ k) d h = ground arith

-- The path of a content.
pub final_path_of : (root k : Bytes) → is_valid_hashcode k ≡ true → root // k ≡ folder root ++ k
final_path_of root k h = join_relative root k (hash_relative k h)

pub temporary_path_folder :
    (root k d : Bytes)
    → is_valid_hashcode k ≡ true
    → (file_storage root).temporary_root // temporary_name k d
      ≡ folder root ++ (b'.' ∷ b't' ∷ b'm' ∷ b'p' ∷ b'/' ∷ temporary_name k d)
unfolding file_storage tmp_name has_filename
temporary_path_folder root k d h =
    rw
      (
        join_relative ((file_storage root).temporary_root) (temporary_name k d)
            (name_relative k d h),
        join_relative root tmp_name refl,
        folder-append (folder root) (b't' ∷ b'm' ∷ b'p' ∷ []) b'.' refl,
      )
      (append_assoc (folder root) (b'.' ∷ b't' ∷ b'm' ∷ b'p' ∷ b'/' ∷ []) (temporary_name k d))

dot_no_hash : (k s : Bytes) → is_valid_hashcode k ≡ true → b'.' ∷ s ≢ k
unfolding is_valid_hashcode
dot_no_hash [] s h e = absurd (ground arith)
dot_no_hash (c ∷ k) s h e = absurd (ground arith)

-- No temporary file lies where a content lies.
pub temporary-ne-final :
    (root h d k : Bytes)
    → is_valid_hashcode h ≡ true
    → is_valid_hashcode k ≡ true
    → (file_storage root).temporary_root // temporary_name h d ≢ root // k
temporary-ne-final root h d k vh vk e =
    dot_no_hash k (b't' ∷ b'm' ∷ b'p' ∷ b'/' ∷ temporary_name h d) vk (
      append-cancel (folder root) _ _
        (sym (temporary_path_folder root h d vh) ∙ e ∙ final_path_of root k vk))

-- Contents with different hashes lie apart.
pub final_path-injective :
    (root h k : Bytes)
    → is_valid_hashcode h ≡ true
    → is_valid_hashcode k ≡ true
    → root // h ≡ root // k
    → h ≡ k
final_path-injective root h k vh vk e =
    append-cancel (folder root) _ _ (sym (final_path_of root h vh) ∙ e ∙ final_path_of root k vk)

split_at_dot :
    (h k s t : Bytes) → length h ≡ length k → h ++ (b'.' ∷ s) ≡ k ++ (b'.' ∷ t) → (h ≡ k) × (s ≡ t)
split_at_dot [] [] s t n e = (refl, cc e)
split_at_dot [] (c ∷ k) s t n e = absurd (omega (arith, n))
split_at_dot (c ∷ h) [] s t n e = absurd (omega (arith, n))
split_at_dot (c ∷ h) (d ∷ k) s t n e =
    let (p, q) = split_at_dot h k s t (omega (arith, n)) (cc e) in (cc, q)

valid_length : (h : Bytes) → is_valid_hashcode h ≡ true → length h ≡ 64
unfolding is_valid_hashcode
valid_length h v = ground arith

-- Temporary files of different contents, or with different random bytes, lie apart.
pub temporary_path-injective :
    (root h k d e : Bytes)
    → is_valid_hashcode h ≡ true
    → is_valid_hashcode k ≡ true
    → All (λ b. b < 256) d
    → All (λ b. b < 256) e
    → (file_storage root).temporary_root // temporary_name h d
      ≡ (file_storage root).temporary_root // temporary_name k e
    → (h ≡ k) × (d ≡ e)
unfolding temporary_name
temporary_path-injective root h k d e vh vk bd be p =
    let tails =
      append-cancel (folder root) _ _
        (sym (temporary_path_folder root h d vh) ∙ p ∙ temporary_path_folder root k e vk) in
    let (q, r) =
      split_at_dot h k (hex_text d) (hex_text e) (valid_length h vh ∙ sym (valid_length k vk))
        (cc tails) in
    (q, hex_text-injective d e bd be r)
