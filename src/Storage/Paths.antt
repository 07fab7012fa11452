-- ===== src/Storage/Paths.antt =====
-- `std::filesystem::path::operator/` on POSIX, as storage/ uses it.
use web_cloud_disk.Base.{
  ℕ, ◌≡◌, refl, Bool, true, false, not, [], ◌∷◌, ◌++◌, append_assoc, Bytes, arith, ◌==◌,
  if◌then◌else◌,
}

abbrev slash : ℕ
slash = b'/'

abbrev pub is_absolute : Bytes → Bool
is_absolute [] = false
is_absolute (c ∷ s) = c == slash

-- Whether the path is not empty and does not end in a slash.
unfoldable pub has_filename : Bytes → Bool
has_filename [] = false
has_filename (c ∷ []) = not (c == slash)
has_filename (c ∷ d ∷ s) = has_filename (d ∷ s)

-- What stands in front of a relative path that is appended.
unfoldable pub folder : Bytes → Bytes
folder p = if has_filename p then p ++ slash ∷ [] else p

infixl 65 ◌//◌
unfoldable pub ◌//◌ : Bytes → Bytes → Bytes
unfolding folder
p // q = if is_absolute q then q else folder p ++ q

has_filename-append : (s t : Bytes) (c : ℕ) → has_filename (s ++ c ∷ t) ≡ has_filename (c ∷ t)
unfolding has_filename
has_filename-append [] t c = refl
has_filename-append (d ∷ []) t c = refl
has_filename-append (d ∷ e ∷ s) t c = has_filename-append (e ∷ s) t c

pub append-cancel : (p s t : Bytes) → p ++ s ≡ p ++ t → s ≡ t
append-cancel [] s t h = h
append-cancel (c ∷ p) s t h = append-cancel p s t (ground arith)

pub join_relative : (p q : Bytes) → is_absolute q ≡ false → p // q ≡ folder p ++ q
unfolding ◌//◌
join_relative p q h = rw h

-- Appending a name that begins with `c` and does not end in a slash gives a folder below.
pub folder-append :
    (p s : Bytes) (c : ℕ)
    → has_filename (c ∷ s) ≡ true
    → folder (p ++ c ∷ s) ≡ p ++ (c ∷ s ++ slash ∷ [])
unfolding folder
folder-append p s c h = rw (has_filename-append p s c, h) (append_assoc p (c ∷ s) (slash ∷ []))
