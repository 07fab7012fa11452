-- ===== src/Discovery/Registrar/Ids.antt =====
-- The IDs of registered instances.
use web_cloud_disk.Base.{
  ℕ, ◌≡◌, refl, Bool, true, false, [], ◌∷◌, ◌++◌, Bytes, arith, All, All-append, Bool-cases, inl,
  inr,
}
use web_cloud_disk.Numbers.{to_string}
use web_cloud_disk.Numbers.RoundTrip.{IsDigits, to_string-IsDigits}
use web_cloud_disk.Config.Sections.{pop_back}
use web_cloud_disk.Discovery.Registrar.{
  is_plain, fold_address, ends_with_dash, drop_dash, make_instance_id,
}

-- Letters, digits and hyphens only.
abbrev pub IsPlainText : Bytes → Type 0
IsPlainText = All λ c. is_plain c ≡ true

fold_address-IsPlainText : (last : Bool) (s : Bytes) → IsPlainText (fold_address last s)
unfolding fold_address
fold_address-IsPlainText last [] = tt
fold_address-IsPlainText last (c ∷ s) = elim (Bool-cases (is_plain c)) [
  | inl e ↦ rw (e, All) (e, fold_address-IsPlainText false s)
  | inr e ↦ elim (Bool-cases last) [
    | inl l ↦ rw (e, l, All) (fold_address-IsPlainText true s)
    | inr l ↦ rw (e, l, All) (refl, fold_address-IsPlainText true s)
  ]
]

pop_back-IsPlainText : (s : Bytes) → IsPlainText s → IsPlainText (pop_back s)
unfolding pop_back
pop_back-IsPlainText [] h = tt
pop_back-IsPlainText (c ∷ []) h = tt
pop_back-IsPlainText (c ∷ d ∷ s) (p, ps) = (p, pop_back-IsPlainText (d ∷ s) ps)

drop_dash-IsPlainText : (s : Bytes) → IsPlainText s → IsPlainText (drop_dash s)
unfolding drop_dash
drop_dash-IsPlainText s h = elim (Bool-cases (ends_with_dash s)) [
  | inl e ↦ rw e (pop_back-IsPlainText s h)
  | inr e ↦ rw e h
]

digits-IsPlainText : (s : Bytes) → IsDigits s → IsPlainText s
digits-IsPlainText [] h = tt
digits-IsPlainText (c ∷ s) (p, ps) = (ground arith, digits-IsPlainText s ps)

-- The ID of a service whose name has letters, digits and hyphens only has no other characters either,
-- whatever the address is.
pub make_instance_id-IsPlainText :
    (name address : Bytes) (port : ℕ)
    → IsPlainText name
    → IsPlainText (make_instance_id name address port)
unfolding make_instance_id
make_instance_id-IsPlainText name address port h =
    All-append _ (drop_dash (name ++ b'-' ∷ fold_address false address)) (b'-' ∷ to_string port)
      (drop_dash-IsPlainText _ (
        All-append _ name (b'-' ∷ fold_address false address) h
          (refl, fold_address-IsPlainText false address)))
      (refl, digits-IsPlainText _ (to_string-IsDigits port))
