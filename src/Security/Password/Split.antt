-- ===== src/Security/Password/Split.antt =====
-- The parts that `split_hash` cuts a text into.
use web_cloud_disk.Base.{ℕ, ◌≡◌, ◌≢◌, refl, [], ◌∷◌, ◌++◌, List, Bytes, arith, All, Lacks}
use web_cloud_disk.Security.Password.{separator, prepend, split_hash}

-- The parts with the separator between them.
abbrev pub join : List Bytes → Bytes
join [] = []
join (p ∷ []) = p
join (p ∷ q ∷ ps) = p ++ (separator ∷ join (q ∷ ps))

split_hash-ne-nil : (s : Bytes) → split_hash s ≢ []
unfolding split_hash
split_hash-ne-nil [] = cc
split_hash-ne-nil (c ∷ s) = ground (arith, prepend-ne-nil c (split_hash s))
  where
    prepend-ne-nil : (c : ℕ) (ps : List Bytes) → prepend c ps ≢ []
    prepend-ne-nil c [] = cc
    prepend-ne-nil c (p ∷ ps) = cc

join-prepend : (c : ℕ) (ps : List Bytes) → join (prepend c ps) ≡ c ∷ join ps
unfolding prepend
join-prepend c [] = refl
join-prepend c (p ∷ []) = refl
join-prepend c (p ∷ q ∷ ps) = refl

join-cons : (ps : List Bytes) → ps ≢ [] → join ([] ∷ ps) ≡ separator ∷ join ps
join-cons [] h = absurd (h refl)
join-cons (p ∷ ps) h = refl

-- Nothing of the text is lost or moved.
pub join-split_hash : (s : Bytes) → join (split_hash s) ≡ s
unfolding split_hash
join-split_hash [] = refl
join-split_hash (c ∷ s) = ground (
  arith,
  join-split_hash s,
  join-prepend c (split_hash s),
  join-cons (split_hash s) (split_hash-ne-nil s),
)

prepend-Lacks :
    (c : ℕ) (ps : List Bytes)
    → c ≢ separator
    → All (Lacks separator) ps
    → All (Lacks separator) (prepend c ps)
unfolding prepend
prepend-Lacks c [] h a = ((h, tt), tt)
prepend-Lacks c (p ∷ ps) h (a, as') = ((h, a), as')

-- No part holds a separator.
pub split_hash-Lacks : (s : Bytes) → All (Lacks separator) (split_hash s)
unfolding split_hash
split_hash-Lacks [] = (tt, tt)
split_hash-Lacks (c ∷ s) = ground (arith, split_hash-Lacks s, prepend-Lacks c (split_hash s))

-- A part without a separator, and what stands behind the separator that ends it.
pub split_hash_part :
    (p s : Bytes) → Lacks separator p → split_hash (p ++ (separator ∷ s)) ≡ p ∷ split_hash s
unfolding split_hash prepend
split_hash_part [] s h = refl
split_hash_part (c ∷ p) s (hc, hp) = ground (arith, split_hash_part p s hp)

pub split_hash_last : (p : Bytes) → Lacks separator p → split_hash p ≡ p ∷ []
unfolding split_hash prepend
split_hash_last [] h = refl
split_hash_last (c ∷ p) (hc, hp) = ground (arith, split_hash_last p hp)
