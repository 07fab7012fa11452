-- ===== src/Service/Files/Names.antt =====
-- What `sanitize_filename` lets through.
use web_cloud_disk.Base.{
  ℕ, zero, suc, ◌+◌, ◌≤◌, ◌≡◌, ◌≢◌, refl, ap, false, none, some, [], ◌∷◌, ◌++◌, Bytes, arith,
  success, length, All, Lacks, Lacks-of_contains, contains_of_Lacks, Option-cases, Bool-cases, inl,
  inr, drop, beq, beq_refl, beq→eq,
}
use native.Mathlib.Numerals.{add-one}
use web_cloud_disk.Service.Files.{
  is_slash, find_last_slash, base_name, bad_name, sanitize_filename, dot, dot_dot,
}

abbrev pub NoSlash : Bytes → Type 0
NoSlash = All λ c. is_slash c ≡ false

find_last_slash-none : (s : Bytes) → find_last_slash s ≡ none → NoSlash s
unfolding find_last_slash
find_last_slash-none [] h = tt
find_last_slash-none (c ∷ s) h = ground (arith, find_last_slash-none s)

find_last_slash-zero :
    (c : ℕ) (s : Bytes) → find_last_slash (c ∷ s) ≡ some 0 → find_last_slash s ≡ none
unfolding find_last_slash
find_last_slash-zero c s h = ground arith

find_last_slash-suc :
    (c : ℕ) (s : Bytes) (i : ℕ)
    → find_last_slash (c ∷ s) ≡ some (suc i)
    → find_last_slash s ≡ some i
unfolding find_last_slash
find_last_slash-suc c s i h = ground arith

find_last_slash-some : (s : Bytes) (i : ℕ) → find_last_slash s ≡ some i → NoSlash (drop (suc i) s)
find_last_slash-some [] i h = tt
find_last_slash-some (c ∷ s) zero h = find_last_slash-none s (find_last_slash-zero c s h)
find_last_slash-some (c ∷ s) (suc i) h = find_last_slash-some s i (find_last_slash-suc c s i h)

NoSlash-find : (s : Bytes) → NoSlash s → find_last_slash s ≡ none
unfolding find_last_slash
NoSlash-find [] h = refl
NoSlash-find (c ∷ s) (h, hs) = ground (arith, NoSlash-find s hs)

-- The name kept is the end of the text, behind its last slash.
base_name-NoSlash : (s : Bytes) → NoSlash (base_name s)
unfolding base_name
base_name-NoSlash s = elim (Option-cases (find_last_slash s)) [
  | inl e ↦ rw (e, base_name) (find_last_slash-none s e)
  | inr (i, e) ↦ rw (e, base_name, add-one i) (find_last_slash-some s i e)
]

-- A name that can lie in a folder, in a header and in the table, and leads nowhere else.
pub record IsSafeName (s : Bytes) : Type 0 where
  pub not_empty : s ≢ []
  pub not_dot : s ≢ dot
  pub not_dot_dot : s ≢ dot_dot
  pub fits : length s ≤ 255
  pub no_slash : NoSlash s
  pub no_nul : Lacks 0 s
  pub no_return : Lacks 13 s
  pub no_newline : Lacks 10 s

bad_name-IsSafeName : (b : Bytes) → NoSlash b → bad_name b ≡ false → IsSafeName b
unfolding bad_name
bad_name-IsSafeName b n h = record {
  not_empty = ground arith;
  not_dot = λ e. absurd (ground (arith, beq_refl dot));
  not_dot_dot = λ e. absurd (ground (arith, beq_refl dot_dot));
  fits = ground arith;
  no_slash = n;
  no_nul = Lacks-of_contains 0 b (ground arith);
  no_return = Lacks-of_contains 13 b (ground arith);
  no_newline = Lacks-of_contains 10 b (ground arith);
}

beq-ne : (s t : Bytes) → s ≢ t → beq s t ≡ false
beq-ne s t h = elim (Bool-cases (beq s t)) [ inl e ↦ absurd (h (beq→eq s t e)) | inr e ↦ e ]

IsSafeName-bad_name : (b : Bytes) → IsSafeName b → bad_name b ≡ false
unfolding bad_name
IsSafeName-bad_name b n = ground (
  arith,
  n.not_empty,
  beq-ne b dot n.not_dot,
  beq-ne b dot_dot n.not_dot_dot,
  n.fits,
  contains_of_Lacks 0 b n.no_nul,
  contains_of_Lacks 13 b n.no_return,
  contains_of_Lacks 10 b n.no_newline,
)

drop-suffix : (n : ℕ) (s : Bytes) → (p : Bytes) × (s ≡ p ++ drop n s)
drop-suffix zero s = ([], refl)
drop-suffix (suc n) [] = ([], refl)
drop-suffix (suc n) (c ∷ s) = let (p, e) = drop-suffix n s in (c ∷ p, ap (◌∷◌ c) e)

base_name-suffix : (s : Bytes) → (p : Bytes) × (s ≡ p ++ base_name s)
unfolding base_name
base_name-suffix s = elim (Option-cases (find_last_slash s)) [
  | inl e ↦ ([], rw (e, base_name))
  | inr (i, e) ↦ rw (e, base_name) (drop-suffix (i + 1) s)
]

-- A name that is let through is the end of the text that was sent, and safe: not empty, "." or "..",
-- of at most 255 bytes, without slashes, backslashes, NUL, CR and LF.
pub sanitize_filename-IsSafeName :
    (filename name : Bytes)
    → sanitize_filename filename ≡ success name
    → IsSafeName name × ((p : Bytes) × (filename ≡ p ++ name))
unfolding sanitize_filename
sanitize_filename-IsSafeName filename name h =
    let same : base_name filename ≡ name = ground arith in
    rw (← same) (
      bad_name-IsSafeName (base_name filename) (base_name-NoSlash filename) (ground arith),
      base_name-suffix filename,
    )

-- A safe name is let through as it is.
pub sanitize_filename_safe :
    (name : Bytes) → IsSafeName name → sanitize_filename name ≡ success name
unfolding sanitize_filename base_name
sanitize_filename_safe name n =
    ground (arith, NoSlash-find name n.no_slash, IsSafeName-bad_name name n)
