-- ===== src/Storage/Local/Footprint.antt =====
-- Which paths storing a content touches, whatever the other requests do.
use web_cloud_disk.Base.{
  ◌≡◌, ◌≢◌, refl, ap, ◌∙◌, Bool, true, false, not, ◌&&◌, Option, none, some, [], Bytes,
  if◌then◌else◌, Bool-cases, success, fail, inl, inr, ◌⊎◌,
}
use web_cloud_disk.Flow.{answer, call, ◌>>=◌}
use web_cloud_disk.Backend.{Filled, Task, open_truncate, write_flush, remove, rename}
use web_cloud_disk.Storage.Paths.{◌//◌}
use web_cloud_disk.Storage.Disk.{Files, put, put_ne, Effect}
use web_cloud_disk.Storage.Disk.Footprint.{Leaves}
use web_cloud_disk.Storage.Local.{
  file_storage, is_valid_hashcode, temporary_name, path_for, temporary_path_of, settle,
  write_and_publish, store_if_absent,
}

-- Only the files at two paths change.
abbrev pub OnlyAt : Bytes → Bytes → Files → Files → Type 0
OnlyAt p q f f' = (r : Bytes) → p ≢ r → q ≢ r → f' r ≡ f r

pub OnlyAt-same : (p q : Bytes) (f f' : Files) → f' ≡ f → OnlyAt p q f f'
OnlyAt-same p q f f' e r np nq = ap (λ (g : Files). g r) e

OnlyAt-put : (p q : Bytes) (x : Option Bytes) (f f' : Files) → f' ≡ put p x f → OnlyAt p q f f'
OnlyAt-put p q x f f' e r np nq = ap (λ (g : Files). g r) e ∙ put_ne p r x f np

OnlyAt-removed : (p q : Bytes) (f f' : Files) → (f' ≡ put p none f) ⊎ (f' ≡ f) → OnlyAt p q f f'
OnlyAt-removed p q f f' (inl e) = OnlyAt-put p q none f f' e
OnlyAt-removed p q f f' (inr e) = OnlyAt-same p q f f' e

OnlyAt-rename :
    (p q s : Bytes) (f f' : Files) → f' ≡ put p none (put q (some s) f) → OnlyAt p q f f'
OnlyAt-rename p q s f f' e r np nq =
    ap (λ (g : Files). g r) e ∙ put_ne p r none (put q (some s) f) np ∙ put_ne q r (some s) f nq

module _ (drawn temp final : Bytes) where
  abbrev LeavesAt : Task Bool → Type 0
  LeavesAt = Leaves drawn (OnlyAt temp final)

  settle-Leaves : LeavesAt (settle temp final)
  unfolding settle
  settle-Leaves f f' st (e, there) = (
    OnlyAt-same temp final f f' e,
    elim (Bool-cases (st.regular && not st.error)) [
      | inl b ↦ rw b (λ g g' r eff. (OnlyAt-removed temp final g g' eff, tt))
      | inr b ↦ rw b (λ g g' r eff. (OnlyAt-removed temp final g g' eff, tt))
    ],
  )

  renamed-Leaves :
      (f f' : Files) (done : Bool)
      → Effect drawn f (rename temp final) done f'
      → OnlyAt temp final f f'
        × LeavesAt (if done then answer (success true) else settle temp final)
  renamed-Leaves f f' true (s, p, e) = (OnlyAt-rename temp final s f f' e, tt)
  renamed-Leaves f f' false e = (OnlyAt-same temp final f f' e, settle-Leaves)

  abbrev after_write : Bool → Task Bool
  after_write written =
      if not written
      then call (remove temp) (λ _. answer (fail 500 "Failed to write file"))
      else call (rename temp final)
          λ renamed. if renamed then answer (success true) else settle temp final

  written-Leaves :
      (content : Bytes) (f f' : Files) (ok : Bool)
      → Effect drawn f (write_flush temp content) ok f'
      → OnlyAt temp final f f' × LeavesAt (after_write ok)
  written-Leaves content f f' true e =
      (OnlyAt-put temp final (some content) f f' e, λ g g' done eff. renamed-Leaves g g' done eff)
  written-Leaves content f f' false (left, e) = (
    OnlyAt-put temp final (some left) f f' e,
    λ g g' u eff. (OnlyAt-removed temp final g g' eff, tt),
  )

  opened-Leaves :
      (content : Bytes) (f f' : Files) (ok : Bool)
      → Effect drawn f (open_truncate temp) ok f'
      → OnlyAt temp final f f'
        × LeavesAt (
            if not ok
            then answer (fail 500 "Failed to create temporary upload file")
            else call (write_flush temp content) after_write)
  opened-Leaves content f f' true e =
      (OnlyAt-put temp final (some []) f f' e, λ g g' ok eff. written-Leaves content g g' ok eff)
  opened-Leaves content f f' false e = (OnlyAt-same temp final f f' e, tt)

  write_and_publish-Leaves : (content : Bytes) → LeavesAt (write_and_publish temp final content)
  unfolding write_and_publish
  write_and_publish-Leaves content f f' ok eff = opened-Leaves content f f' ok eff

module _ (root h drawn : Bytes) (valid : is_valid_hashcode h ≡ true) where
  abbrev pub temp : Bytes
  temp = (file_storage root).temporary_root // temporary_name h drawn

  drawn-Leaves :
      (content : Bytes) (r : Option (Filled 8))
      → ((b : Filled 8) → r ≡ some b → b.bytes ≡ drawn)
      → Leaves drawn (OnlyAt temp (root // h)) (
          answer (temporary_path_of (file_storage root) h r) >>= λ temp_path.
          write_and_publish temp_path (root // h) content)
  unfolding temporary_path_of
  drawn-Leaves content none d = tt
  drawn-Leaves content (some b) d =
      rw (d b refl) (write_and_publish-Leaves drawn temp (root // h) content)

  -- Storing touches its temporary file and the file under its hash, and no other.
  pub store_if_absent-Leaves :
      (content : Bytes)
      → Leaves drawn (OnlyAt temp (root // h)) (store_if_absent (file_storage root) h content)
  unfolding store_if_absent path_for file_storage
  store_if_absent-Leaves content = rw valid λ f f' st (e, there). (
    OnlyAt-same temp (root // h) f f' e,
    elim (Bool-cases st.regular) [
      | inl b ↦ rw b tt
      | inr b ↦
          rw b λ g g' r (q, d). (OnlyAt-same temp (root // h) g g' q, drawn-Leaves content r d)
    ],
  )
