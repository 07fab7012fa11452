-- ===== src/Service/Files/Interleaved.antt =====
-- Uploads that run at the same time, their steps taken in whatever order.
use web_cloud_disk.Base.{
  ℕ, ◌<◌, ◌≡◌, ◌≢◌, refl, sym, ◌∙◌, ap, true, false, [], Option, none, Option-cases, inl, inr,
  Bytes, Result, success, All,
}
use web_cloud_disk.Flow.{Flow, answer, call}
use web_cloud_disk.Backend.{Request, Reply, MySqlReply, mysql}
use web_cloud_disk.Security.Crypto.{Crypto, CryptoLaws}
use web_cloud_disk.Security.Sha256.{hex}
use web_cloud_disk.Storage.Paths.{◌//◌}
use web_cloud_disk.Storage.Disk.{Files}
use web_cloud_disk.Storage.Interleaving.{
  System, Reach, AllTrack, Reach-answer, Reach-kept, Reach-query,
}
use web_cloud_disk.Storage.Local.{is_valid_hashcode}
use web_cloud_disk.Storage.Local.Names.{temporary-ne-final, temporary_path-injective}
use web_cloud_disk.Storage.Local.Publish.{Intact, Keeps}
use web_cloud_disk.Messaging.Json.{JsonLibrary}
use web_cloud_disk.Service.Files.{UploadedFile}
use web_cloud_disk.Service.Files.Granted.{
  UploadCall, hash_valid, temporary_of, Stored, Relies, Grants, Inserts, Uploaded, upload_of,
  any_upload,
}

-- Some reply, which need not come.
abbrev no_reply : MySqlReply
no_reply = record {
  state_success = false;
  is_error_packet = false;
  error_code = 0;
  get_result = false;
  rows = [];
  last_insert_id = 0;
}

module _ (crypto : Crypto) (root : Bytes) where
  pub Keeps-same : (f : Files) → Keeps crypto root f f
  Keeps-same f = record { intact = λ i. i; kept = λ k v n. n }

  Keeps-both :
      (f g h : Files) → Keeps crypto root f g → Keeps crypto root g h → Keeps crypto root f h
  Keeps-both f g h a b = record {
    intact = λ i. b.intact (a.intact i);
    kept = λ k v n. b.kept k v (a.kept k v n);
  }

  Stored-kept :
      (h : Bytes) (f g : Files)
      → is_valid_hashcode h ≡ true
      → Stored crypto root h f
      → Keeps crypto root f g
      → Intact crypto root g
      → Stored crypto root h g
  Stored-kept h f g valid (x, e, q) k intact = elim (Option-cases (g (root // h))) [
    | inl n ↦ absurd (k.kept h valid (λ n'. cc) n)
    | inr (y, e') ↦ (y, e', intact h y valid e')
  ]

  module _ {I : Type 0} (calls : I → UploadCall) (drawn : I → Bytes) where
    -- What else may happen to the disk: contents stay, and so do the uploads' temporary files.
    abbrev pub Elsewhere : Files → Files → Type 0
    Elsewhere f f' =
        Keeps crypto root f f'
        × ((i : I) (h : Bytes)
            → hex crypto (calls i).content ≡ success h
            → f' (temporary_of root (drawn i) h) ≡ f (temporary_of root (drawn i) h))

    pub Relies-same : (i : I) (f : Files) → Relies crypto root (calls i).content (drawn i) f f
    Relies-same i f = (Keeps-same f, λ h e. refl)

    pub Relies-both :
        (i : I) (f g h : Files)
        → Relies crypto root (calls i).content (drawn i) f g
        → Relies crypto root (calls i).content (drawn i) g h
        → Relies crypto root (calls i).content (drawn i) f h
    Relies-both i f g h (a, s) (b, t) = (Keeps-both f g h a b, λ k e. t k e ∙ s k e)

    module _ (laws : CryptoLaws crypto) (bytes : (i : I) → All (λ b. b < 256) (drawn i))
        (apart : (i j : I)
          → i ≢ j
          → hex crypto (calls i).content ≡ hex crypto (calls j).content
          → drawn i ≢ drawn j) where
      -- What one upload grants is what another relies on.
      pub compatible :
          (i j : I) (f g : Files)
          → i ≢ j
          → Grants crypto root (calls i).content (drawn i) f g
          → Relies crypto root (calls j).content (drawn j) f g
      compatible i j f g ne (k, o) = (
        k,
        λ h e. o (temporary_of root (drawn j) h) λ h' e'. (
          λ p.
              let (q, d) =
                temporary_path-injective root h' h (drawn i) (drawn j)
                  (hash_valid crypto laws (calls i).content h' e')
                  (hash_valid crypto laws (calls j).content h e) (bytes i) (bytes j) p in
              apart i j ne (e' ∙ ap success q ∙ sym e) d,
          λ p.
              temporary-ne-final root h (drawn j) h' (hash_valid crypto laws (calls j).content h e)
                (hash_valid crypto laws (calls i).content h' e') (sym p),
        ),
      )

module _ {J I : Type 0} (escape : Bytes → Bytes) (crypto : Crypto) (json : JsonLibrary J)
    (root : Bytes) (publisher : Option Bytes) (max_file_size : ℕ) (same_index : Discrete I)
    (calls : I → UploadCall) (drawn : I → Bytes) where
  abbrev pub Uploads : Type 0
  Uploads = System I (Result UploadedFile)

  -- All uploads, before their first calls.
  abbrev pub started : Files → Uploads
  started f = record {
    files = f;
    flows = λ i. upload_of escape crypto json root publisher max_file_size (calls i);
  }

  -- Contents are intact, those that were there are still there, each INSERT is sent while its content
  -- lies in place, and so does the content of each upload that has ended with success.
  pub record Consistent (f : Files) (t : Uploads) : Type 0 where
    pub intact : Intact crypto root t.files
    pub kept :
        (k : Bytes) → is_valid_hashcode k ≡ true → f (root // k) ≢ none → t.files (root // k) ≢ none
    pub inserts :
        (i : I) (sql : Bytes) (k : Reply (mysql sql) → Flow Request Reply (Result UploadedFile))
        → t.flows i ≡ call (mysql sql) k
        → Inserts crypto root escape (calls i) t.files sql
    pub ended :
        (i : I) (u : UploadedFile)
        → t.flows i ≡ answer (success u)
        → Uploaded crypto root (calls i) t.files (success u)

  module _ (laws : CryptoLaws crypto) (bytes : (i : I) → All (λ b. b < 256) (drawn i))
      (apart : (i j : I)
        → i ≢ j
        → hex crypto (calls i).content ≡ hex crypto (calls j).content
        → drawn i ≢ drawn j) where
    abbrev Reaches : Uploads → Uploads → Type 0
    Reaches = Reach same_index drawn (Elsewhere crypto root calls drawn)

    abbrev OnTrack : Uploads → Type 0
    OnTrack =
        AllTrack same_index drawn (Elsewhere crypto root calls drawn)
          (λ i. Relies crypto root (calls i).content (drawn i))
          (λ i. Grants crypto root (calls i).content (drawn i))
          (λ i. Inserts crypto root escape (calls i)) (λ i. Uploaded crypto root (calls i))
          (Relies-same crypto root calls drawn) (Relies-both crypto root calls drawn)
          (compatible crypto root calls drawn laws bytes apart) (λ i f g (k, t). (k, t i))

    pub started-OnTrack : (f : Files) → Intact crypto root f → OnTrack (started f)
    started-OnTrack f intact i = (
      f,
      Relies-same crypto root calls drawn i f,
      any_upload escape crypto json root publisher max_file_size laws (calls i) (drawn i) f intact,
    )

    Reaches-Keeps :
        (f : Files) {t : Uploads}
        → Intact crypto root f
        → Reaches (started f) t
        → Keeps crypto root f t.files
    Reaches-Keeps f intact r =
        Reach-kept same_index drawn _ _ _ _ _ (Relies-same crypto root calls drawn)
          (Relies-both crypto root calls drawn)
          (compatible crypto root calls drawn laws bytes apart) (λ i f g (k, t). (k, t i))
          (Keeps crypto root) (Keeps-same crypto root) (Keeps-both crypto root) (λ i f g g'. g'.0)
          (λ f g e. e.0) r (started-OnTrack f intact)

    Reaches-ended :
        (f : Files) {t : Uploads} (i : I) (u : UploadedFile)
        → Intact crypto root f
        → Reaches (started f) t
        → t.flows i ≡ answer (success u)
        → Uploaded crypto root (calls i) t.files (success u)
    Reaches-ended f {t} i u intact r e =
        let (f₀, (k, s), (h, sanitized, hashed, stored)) =
          Reach-answer same_index drawn _ _ _ _ _ (Relies-same crypto root calls drawn)
            (Relies-both crypto root calls drawn)
            (compatible crypto root calls drawn laws bytes apart) (λ i f g (k, t). (k, t i)) i
            (success u) r (started-OnTrack f intact) e in
        (
          h,
          sanitized,
          hashed,
          Stored-kept crypto root h f₀ t.files (hash_valid crypto laws (calls i).content h hashed)
              stored k ((Reaches-Keeps f intact r).intact intact),
        )

    -- Uploads of any names and contents run on one disk, their steps in any order, among other changes that
    -- keep contents intact and in place and leave the uploads' temporary files alone. If uploads of contents
    -- with the same hash draw different random bytes, then from an intact disk every state that is reached
    -- has contents intact and still has those that were there; an INSERT is about to be sent only for the
    -- user, the cleaned name, the hash and the size of its upload, with the whole content of that hash at
    -- its path; and the content of each upload that has ended with success lies there too, under the
    -- cleaned name that it answers.
    pub uploads-Consistent :
        (f : Files) {t : Uploads}
        → Intact crypto root f
        → Reach same_index drawn (Elsewhere crypto root calls drawn) (started f) t
        → Consistent f t
    uploads-Consistent f {t} intact r =
        let keeps = Reaches-Keeps f intact r in
        record {
          intact = keeps.intact intact;
          kept = keeps.kept;
          inserts = λ i sql k e.
              Reach-query same_index drawn _ _ _ _ _ (Relies-same crypto root calls drawn)
                (Relies-both crypto root calls drawn)
                (compatible crypto root calls drawn laws bytes apart) (λ i f g (k, t). (k, t i)) i
                sql k r (started-OnTrack f intact) no_reply e;
          ended = λ i u e. Reaches-ended f i u intact r e;
        }
