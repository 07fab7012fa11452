-- ===== src/Storage/Local/Publish.antt =====
-- Storing a content while other requests do the same.
use web_cloud_disk.Base.{
  ◌≡◌, ◌≢◌, refl, Bool, true, false, not, [], Bytes, arith, if◌then◌else◌, ap, ◌∙◌, sym, Option,
  none, some, Option-cases, inl, inr, Bool-cases, Result, success, failure, fail, beq, beq→eq,
  beq_refl, ◌⊎◌, ◌&&◌,
}
use web_cloud_disk.Flow.{answer, call, ◌>>=◌}
use web_cloud_disk.Backend.{Filled, Task, open_truncate, write_flush, remove, rename}
use web_cloud_disk.Security.Crypto.{Crypto}
use web_cloud_disk.Security.Sha256.{hex}
use web_cloud_disk.Storage.Paths.{◌//◌}
use web_cloud_disk.Storage.Disk.{Files, put, put_self, put_ne, Effect, Safe}
use web_cloud_disk.Storage.Local.{
  file_storage, is_valid_hashcode, temporary_name, path_for, temporary_path_of, settle,
  write_and_publish, store_if_absent,
}
use web_cloud_disk.Storage.Local.Names.{temporary-ne-final, final_path-injective}

module _ (crypto : Crypto) (root : Bytes) where
  -- Every file under a hash holds a content with that hash, whole.
  abbrev pub Intact : Files → Type 0
  Intact f =
      (k x : Bytes) → is_valid_hashcode k ≡ true → f (root // k) ≡ some x → hex crypto x ≡ success k

  -- What each request leaves to the others: intact files stay intact, and no content goes away.
  pub record Keeps (f f' : Files) : Type 0 where
    pub intact : Intact f → Intact f'
    pub kept :
        (k : Bytes) → is_valid_hashcode k ≡ true → f (root // k) ≢ none → f' (root // k) ≢ none

  Keeps-of_eq : (f f' : Files) → f' ≡ f → Keeps f f'
  Keeps-of_eq f f' e = rw e (record { intact = λ i. i; kept = λ k v n. n })

  module _ (h drawn : Bytes) (valid : is_valid_hashcode h ≡ true) where
    abbrev temp : Bytes
    temp = (file_storage root).temporary_root // temporary_name h drawn

    -- The other requests draw other temporary names.
    abbrev pub Rely : Files → Files → Type 0
    Rely f f' = Keeps f f' × (f' temp ≡ f temp)

    abbrev pub StoreOutcome : Files → Result Bool → Type 0
    StoreOutcome f (success new) =
        Intact f × ((x : Bytes) × (f (root // h) ≡ some x) × (hex crypto x ≡ success h))
    StoreOutcome f (failure e) = Intact f × (e.status_code ≡ 500)

    temp_ne : (k : Bytes) → is_valid_hashcode k ≡ true → temp ≢ root // k
    temp_ne k v = temporary-ne-final root h drawn k valid v

    Keeps-put-temp : (f f' : Files) (x : Option Bytes) → f' ≡ put temp x f → Keeps f f'
    Keeps-put-temp f f' x e = rw e (record {
      intact = λ i k y v p. i k y v (sym (put_ne temp (root // k) x f (temp_ne k v)) ∙ p);
      kept = λ k v n p. n (sym (put_ne temp (root // k) x f (temp_ne k v)) ∙ p);
    })

    -- The file at the hash after the rename.
    renamed_at :
        (k s : Bytes) (f : Files)
        → is_valid_hashcode k ≡ true
        → put temp none (put (root // h) (some s) f) (root // k)
          ≡ (if beq h k then some s else f (root // k))
    renamed_at k s f v =
        put_ne temp (root // k) none _ (temp_ne k v) ∙ elim (Bool-cases (beq h k)) [
          | inl e ↦ rw (e, beq→eq h k e) (put_self (root // k) (some s) f)
          | inr e ↦ rw e (
              put_ne (root // h) (root // k) (some s) f λ p.
                cc
                  (sym e ∙ ap (beq h) (sym (final_path-injective root h k valid v p)) ∙ beq_refl h))
        ]

    Keeps-rename :
        (s : Bytes) (f f' : Files)
        → hex crypto s ≡ success h
        → f' ≡ put temp none (put (root // h) (some s) f)
        → Keeps f f'
    Keeps-rename s f f' whole e = rw e (record {
      intact = λ i k y v p. elim (Bool-cases (beq h k)) [
        | inl b ↦ ground (arith, renamed_at k s f v, beq→eq h k b, whole)
        | inr b ↦ i k y v (ground (arith, renamed_at k s f v))
      ];
      kept = λ k v n p. ground (arith, renamed_at k s f v);
    })

    published :
        (new : Bool) (f : Files) → Intact f → f (root // h) ≢ none → StoreOutcome f (success new)
    published new f i n = elim (Option-cases (f (root // h))) [
      | inl e ↦ absurd (n e)
      | inr (x, e) ↦ (i, (x, e, i h x valid e))
    ]

    Keeps-removed : (f f' : Files) → (f' ≡ put temp none f) ⊎ (f' ≡ f) → Keeps f f'
    Keeps-removed f f' (inl e) = Keeps-put-temp f f' none e
    Keeps-removed f f' (inr e) = Keeps-of_eq f f' e

    -- `at` is what the caller wants of the files whenever it sends a query; storing sends none.
    module _ (at : Files → Bytes → Type 0) where
      abbrev SafeStore : Files → Task Bool → Type 0
      SafeStore = Safe drawn Rely Keeps at StoreOutcome

      settle-Safe : (f : Files) → Intact f → SafeStore f (settle temp (root // h))
      unfolding settle
      settle-Safe f i = λ f₁ (k₁, _) st f₂ (e, there).
          let i₂ = (Keeps-of_eq f₁ f₂ e).intact (k₁.intact i) in
          (
            tt,
            Keeps-of_eq f₁ f₂ e,
            elim (Bool-cases (st.regular && not st.error)) [
              | inl b ↦ rw b λ f₃ (k₃, _) u f₄ eff.
                  let k₄ = Keeps-removed f₃ f₄ eff in
                  let n₂ = (Keeps-of_eq f₁ f₂ e).kept h valid (there (ground arith)) in
                  (
                    tt,
                    k₄,
                    published false f₄ (k₄.intact (k₃.intact i₂))
                        (k₄.kept h valid (k₃.kept h valid n₂)),
                  )
              | inr b ↦ rw b λ f₃ (k₃, _) u f₄ eff.
                  let k₄ = Keeps-removed f₃ f₄ eff in (tt, k₄, (k₄.intact (k₃.intact i₂), refl))
            ],
          )

      module _ (content : Bytes) (whole : hex crypto content ≡ success h) where
        renamed-Safe :
            (f : Files) (done : Bool) (f' : Files)
            → Intact f
            → f temp ≡ some content
            → Effect drawn f (rename temp (root // h)) done f'
            → Unit {0}
              × Keeps f f'
              × SafeStore f' (if done then answer (success true) else settle temp (root // h))
        renamed-Safe f true f' i t (s, p, e) =
            let same : hex crypto s ≡ success h = ground (arith, whole) in
            let k = Keeps-rename s f f' same e in
            let there : f' (root // h) ≡ some s =
              ground (arith, e, renamed_at h s f valid, beq_refl h) in
            (tt, k, (k.intact i, (s, there, same)))
        renamed-Safe f false f' i t e =
            let k = Keeps-of_eq f f' e in (tt, k, settle-Safe f' (k.intact i))

        abbrev after_write : Bool → Task Bool
        after_write written =
            if not written
            then call (remove temp) (λ _. answer (fail 500 "Failed to write file"))
            else call (rename temp (root // h))
                λ renamed. if renamed then answer (success true) else settle temp (root // h)

        written-Safe :
            (f : Files) (ok : Bool) (f' : Files)
            → Intact f
            → Effect drawn f (write_flush temp content) ok f'
            → Unit {0} × Keeps f f' × SafeStore f' (after_write ok)
        written-Safe f true f' i e =
            let k = Keeps-put-temp f f' (some content) e in
            (
              tt,
              k,
              λ f₁ (k₁, t₁) done f₂ eff.
                  renamed-Safe f₁ done f₂ (k₁.intact (k.intact i))
                    (t₁ ∙ ap (λ (g : Files). g temp) e ∙ put_self temp (some content) f) eff,
            )
        written-Safe f false f' i (left, e) =
            let k = Keeps-put-temp f f' (some left) e in
            (
              tt,
              k,
              λ f₁ (k₁, t₁) u f₂ eff.
                  let k₂ = Keeps-removed f₁ f₂ eff in
                  (tt, k₂, (k₂.intact (k₁.intact (k.intact i)), refl)),
            )

        opened-Safe :
            (f : Files) (ok : Bool) (f' : Files)
            → Intact f
            → Effect drawn f (open_truncate temp) ok f'
            → Unit {0}
              × Keeps f f'
              × SafeStore f' (
                  if not ok
                  then answer (fail 500 "Failed to create temporary upload file")
                  else call (write_flush temp content) after_write)
        opened-Safe f true f' i e =
            let k = Keeps-put-temp f f' (some []) e in
            (tt, k, λ f₁ (k₁, t₁) ok f₂ eff. written-Safe f₁ ok f₂ (k₁.intact (k.intact i)) eff)
        opened-Safe f false f' i e = let k = Keeps-of_eq f f' e in (tt, k, (k.intact i, refl))

        write_and_publish-Safe :
            (f : Files) → Intact f → SafeStore f (write_and_publish temp (root // h) content)
        unfolding write_and_publish
        write_and_publish-Safe f i = λ f₁ (k₁, t₁) ok f₂ eff. opened-Safe f₁ ok f₂ (k₁.intact i) eff

        drawn-Safe :
            (f : Files) (r : Option (Filled 8))
            → Intact f
            → ((b : Filled 8) → r ≡ some b → b.bytes ≡ drawn)
            → SafeStore f (
                answer (temporary_path_of (file_storage root) h r) >>= λ temp_path.
                write_and_publish temp_path (root // h) content)
        unfolding temporary_path_of
        drawn-Safe f none i d = (i, refl)
        drawn-Safe f (some b) i d = rw (d b refl) (write_and_publish-Safe f i)

        -- While other requests keep contents intact and in place and draw other temporary names, each
        -- step of storing a content under its own hash, failed steps included, keeps contents intact and
        -- in place as well; on success the whole content of that hash lies at its path, and every error
        -- is a 500. So no request ever finds a content partly written.
        pub store_if_absent-Safe :
            (f : Files)
            → Intact f
            → Safe drawn Rely Keeps at StoreOutcome f
                (store_if_absent (file_storage root) h content)
        unfolding store_if_absent path_for file_storage
        store_if_absent-Safe f i = rw valid λ f₁ (k₁, _) st f₂ (e, there).
            let k₂ = Keeps-of_eq f₁ f₂ e in
            let i₂ = k₂.intact (k₁.intact i) in
            (
              tt,
              k₂,
              elim (Bool-cases st.regular) [
                | inl b ↦ rw b (published false f₂ i₂ (k₂.kept h valid (there b)))
                | inr b ↦ rw b λ f₃ (k₃, _) r f₄ (q, d).
                    let k₄ = Keeps-of_eq f₃ f₄ q in
                    (tt, k₄, drawn-Safe f₄ r (k₄.intact (k₃.intact i₂)) d)
              ],
            )
