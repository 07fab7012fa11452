-- ===== src/Service/Files/Store.antt =====
-- The disk as a set of hashes, to which uploads that run at the same time add.
use web_cloud_disk.Base.{
  ℕ, ◌<◌, ◌≡◌, ◌≢◌, refl, subst, sym, ◌∙◌, ap, Bool, true, false, ◌||◌, Option, none, some,
  Option-cases, Bool-cases, Result-cases, inl, inr, Bytes, success, All, beq, beq→eq, beq_refl,
  arith,
}
use web_cloud_disk.Flow.{answer}
use web_cloud_disk.Security.Crypto.{Crypto, CryptoLaws}
use web_cloud_disk.Security.Sha256.{hex}
use web_cloud_disk.Storage.Paths.{◌//◌}
use web_cloud_disk.Storage.Disk.{Files}
use web_cloud_disk.Storage.Interleaving.{
  Reach, Reach-kept, Reach-AllTrack, Reach-both, Reach-weaken,
}
use web_cloud_disk.Storage.Local.{is_valid_hashcode}
use web_cloud_disk.Storage.Local.Names.{temporary-ne-final, final_path-injective}
use web_cloud_disk.Storage.Local.Publish.{Intact}
use web_cloud_disk.Messaging.Json.{JsonLibrary}
use web_cloud_disk.Service.Files.{UploadedFile}
use web_cloud_disk.Service.Files.Granted.{UploadCall, hash_valid, Relies, Grants}
use web_cloud_disk.Service.Files.Interleaved.{
  Keeps-same, Relies-same, Relies-both, compatible, started-OnTrack, Uploads, Elsewhere, started,
  uploads-Consistent,
}

abbrev pub HashSet : Type 0
HashSet = Bytes → Bool

abbrev pub add : Bytes → HashSet → HashSet
add h s k = beq h k || s k

-- The hashes under which the disk holds a content.
abbrev pub is_some : Option Bytes → Bool
is_some none = false
is_some (some x) = true

is_some-none : (x : Option Bytes) → is_some x ≡ false → x ≡ none
is_some-none none e = refl
is_some-none (some y) e = absurd (cc e)

abbrev pub Shows : Bytes → Files → HashSet → Type 0
Shows root f s = (k : Bytes) → is_valid_hashcode k ≡ true → is_some (f (root // k)) ≡ s k

module _ (crypto : Crypto) {I : Type 0} (calls : I → UploadCall) where
  -- The set grows by the hashes of uploads, one at a time.
  pub data Adds (s : HashSet) : HashSet → Type 0 where
    nothing : Adds s s
    upload_adds :
        {t : HashSet} (i : I) (h : Bytes)
        → hex crypto (calls i).content ≡ success h
        → Adds s t
        → Adds s (add h t)

  Adds-both : {s t u : HashSet} → Adds s t → Adds t u → Adds s u
  Adds-both a nothing = a
  Adds-both a (upload_adds i h e b) = upload_adds i h e (Adds-both a b)

  module _ (root : Bytes) where
    -- What one disk shows becomes what the other does by adding hashes of uploads.
    abbrev pub Simulates : Files → Files → Type 0
    Simulates f g = (s : HashSet) → Shows root f s → (t : HashSet) × Adds s t × Shows root g t

    Simulates-both : (f g h : Files) → Simulates f g → Simulates g h → Simulates f h
    Simulates-both f g h a b s shows =
        let (t, adds, shows_t) = a s shows in
        let (u, more, shows_u) = b t shows_t in (u, Adds-both adds more, shows_u)

    Simulates-same :
        (f g : Files)
        → ((k : Bytes)
            → is_valid_hashcode k ≡ true
            → is_some (g (root // k)) ≡ is_some (f (root // k)))
        → Simulates f g
    Simulates-same f g same s shows = (s, nothing, λ k v. same k v ∙ shows k v)

    -- A step of one upload, whose hash is `h`.
    module _ (laws : CryptoLaws crypto) (i : I) (drawn h : Bytes)
        (hashed : hex crypto (calls i).content ≡ success h) (f g : Files)
        (grants : Grants crypto root (calls i).content drawn f g) where
      elsewhere_same :
          (k : Bytes) → is_valid_hashcode k ≡ true → h ≢ k → g (root // k) ≡ f (root // k)
      elsewhere_same k v ne = grants.1 (root // k) λ h' e.
          let valid = hash_valid crypto laws (calls i).content h' e in
          (
            temporary-ne-final root h' drawn k valid v,
            λ p. ne (same_hash h' e ∙ final_path-injective root h' k valid v p),
          )
        where
          same_hash : (h' : Bytes) → hex crypto (calls i).content ≡ success h' → h ≡ h'
          same_hash h' e = ground arith

      apart : (k : Bytes) → beq h k ≡ false → h ≢ k
      apart k e p = cc (sym e ∙ ap (beq h) (sym p) ∙ beq_refl h)

      absent_before : is_some (g (root // h)) ≡ false → is_some (f (root // h)) ≡ false
      absent_before e = elim (Option-cases (f (root // h))) [
        | inl n ↦ rw n refl
        | inr (x, p) ↦ absurd (
            grants.0.kept h (hash_valid crypto laws (calls i).content h hashed) (λ n. cc)
              (is_some-none (g (root // h)) e))
      ]

      unchanged :
          is_some (g (root // h)) ≡ false
          → (k : Bytes) → is_valid_hashcode k ≡ true
          → is_some (g (root // k)) ≡ is_some (f (root // k))
      unchanged absent k v = elim (Bool-cases (beq h k)) [
        | inl e ↦ rw (← beq→eq h k e) (absent ∙ sym (absent_before absent))
        | inr e ↦ ap is_some (elsewhere_same k v (apart k e))
      ]

      step-Simulates : Simulates f g
      step-Simulates s shows = elim (Bool-cases (is_some (g (root // h)))) [
        | inl there ↦ (
          add h s,
          upload_adds i h hashed nothing,
          λ k v. elim (Bool-cases (beq h k)) [
            | inl e ↦ rw (← beq→eq h k e, beq_refl h) there
            | inr e ↦ rw (e, elsewhere_same k v (apart k e)) (shows k v)
          ],
        )
        | inr absent ↦ Simulates-same f g (unchanged absent) s shows
      ]

    -- An upload whose content cannot be hashed changes nothing.
    Grants-Simulates :
        (laws : CryptoLaws crypto) (i : I) (drawn : Bytes) (f g : Files)
        → Grants crypto root (calls i).content drawn f g
        → Simulates f g
    Grants-Simulates laws i drawn f g grants = elim (Result-cases (hex crypto (calls i).content)) [
      | inl (h, e) ↦ step-Simulates laws i drawn h e f g grants
      | inr (x, e) ↦
          Simulates-same f g (λ k v. ap is_some (grants.1 (root // k) (λ h' e'. absurd (cc e'))))
    ]

-- Nothing but the uploads changes the disk.
abbrev pub Still : Files → Files → Type 0
Still f g = g ≡ f

module _ {J I : Type 0} (escape : Bytes → Bytes) (crypto : Crypto) (json : JsonLibrary J)
    (root : Bytes) (publisher : Option Bytes) (max_file_size : ℕ) (same_index : Discrete I)
    (calls : I → UploadCall) (drawn : I → Bytes) where
  -- The set that the disk shows at the later time `u` is the one at the earlier time `t` with the hashes of some
  -- uploads added, and in it is the hash of each upload that has ended with success.
  abbrev pub Refines :
      Uploads escape crypto json root publisher max_file_size same_index calls drawn
      → Uploads escape crypto json root publisher max_file_size same_index calls drawn
      → Type 0
  Refines t u =
      (s : HashSet) × Adds crypto calls (λ k. is_some (t.files (root // k))) s
      × Shows root u.files s
      × ((i : I) (a : UploadedFile)
          → u.flows i ≡ answer (success a)
          → (h : Bytes) × (hex crypto (calls i).content ≡ success h) × (s h ≡ true))

  module _ (laws : CryptoLaws crypto) (bytes : (i : I) → All (λ b. b < 256) (drawn i))
      (apart : (i j : I)
        → i ≢ j
        → hex crypto (calls i).content ≡ hex crypto (calls j).content
        → drawn i ≢ drawn j) where
    Reach-Simulates :
        (f : Files)
        {t u : Uploads escape crypto json root publisher max_file_size same_index calls drawn}
        → Intact crypto root f
        → Reach same_index drawn Still
            (started escape crypto json root publisher max_file_size same_index calls drawn f)
            t
        → Reach same_index drawn Still t u
        → Simulates crypto calls root t.files u.files
    Reach-Simulates f intact r q =
        Reach-kept same_index drawn _ _ _ _ _ (Relies-same crypto root calls drawn)
          (Relies-both crypto root calls drawn)
          (compatible crypto root calls drawn laws bytes apart) granted
          (Simulates crypto calls root) (λ g. Simulates-same crypto calls root g g (λ k v. refl))
          (Simulates-both crypto calls root)
          (λ i g g' grants. Grants-Simulates crypto calls root laws i (drawn i) g g' grants)
          (λ g g' e.
            Simulates-same crypto calls root g g'
              (λ k v. ap (λ (g'' : Files). is_some (g'' (root // k))) e))
          q
          (Reach-AllTrack same_index drawn Still _ _ _ _ (Relies-same crypto root calls drawn)
            (Relies-both crypto root calls drawn)
            (compatible crypto root calls drawn laws bytes apart) granted r
            (started-OnTrack escape crypto json root publisher max_file_size same_index calls drawn
              laws bytes apart f intact))
      where
        granted :
            (i : I) (g g' : Files)
            → Still g g'
            → Relies crypto root (calls i).content (drawn i) g g'
        granted i g g' e =
            subst (λ (g'' : Files). Relies crypto root (calls i).content (drawn i) g g'') (sym e)
              (Relies-same crypto root calls drawn i g)

    -- Uploads that run at the same time on a disk that nothing else changes, their steps in any order, only
    -- ever add their hashes to the set of hashes that the disk shows: between any two times of a run, the
    -- later set is the earlier one with hashes of uploads added one at a time, so no step removes a hash or
    -- adds one that is not an upload's, and the hash of each upload that has ended with success by the
    -- later time is in it. The disk is intact when the uploads start, and uploads of contents with the
    -- same hash draw different bytes.
    pub uploads-Refines :
        (f : Files)
        {t u : Uploads escape crypto json root publisher max_file_size same_index calls drawn}
        → Intact crypto root f
        → Reach same_index drawn Still
            (started escape crypto json root publisher max_file_size same_index calls drawn f)
            t
        → Reach same_index drawn Still t u
        → Refines t u
    uploads-Refines f {t} {u} intact r q =
        let (s, adds, shows) =
          Reach-Simulates f intact r q (λ k. is_some (t.files (root // k))) (λ k v. refl) in
        let consistent =
          uploads-Consistent escape crypto json root publisher max_file_size same_index calls drawn
            laws bytes apart f intact
            (Reach-weaken same_index drawn Still (Elsewhere crypto root calls drawn) still
              (Reach-both same_index drawn Still r q)) in
        (
          s,
          adds,
          shows,
          λ i a e.
              let (h, sanitized, hashed, (x, there, whole)) = consistent.ended i a e in
              (
                h,
                hashed,
                sym (shows h (hash_valid crypto laws (calls i).content h hashed))
                    ∙ ap is_some there,
              ),
        )
      where
        still : (g g' : Files) → Still g g' → Elsewhere crypto root calls drawn g g'
        still g g' e =
            subst (Elsewhere crypto root calls drawn g) (sym e)
              (Keeps-same crypto root g, λ i h q. refl)
