-- ===== src/Base/Texts.antt =====
-- Byte strings. `std::string` holds bytes, so a text is a list of numbers below 256.
use Prim.Native.Char.{code}
use Prim.Native.String.{String}
use Prim.Native.Nat.{ℕ}
use mathlib.Core.Path.{◌≡◌, refl}
use mathlib.Core.Logic.{◌↔◌, ◌≢◌}
use mathlib.Core.Bool.{Bool, true, false, ◌&&◌, ◌||◌}
use mathlib.Core.List.{List, [], ◌∷◌}
use native.Mathlib.Omega.{arith}
use web_cloud_disk.Base.Tests.{◌==◌}
use web_cloud_disk.Base.Lists.{All}

abbrev pub Bytes : Type 0
Bytes = List ℕ

-- The bytes of an ASCII literal. Shut, so that a message stays a name in proofs.
unfoldable pub codes : String → Bytes
codes String.[] = []
codes (String.◌∷◌ c s) = code c ∷ codes s

-- `operator==` of strings.
unfoldable pub beq : Bytes → Bytes → Bool
beq [] [] = true
beq [] (d ∷ t) = false
beq (c ∷ s) [] = false
beq (c ∷ s) (d ∷ t) = (c == d) && beq s t

pub beq_refl : (s : Bytes) → beq s s ≡ true
unfolding beq
beq_refl [] = refl
beq_refl (c ∷ s) = ground (arith, beq_refl s)

pub beq→eq : (s t : Bytes) → beq s t ≡ true → s ≡ t
unfolding beq
beq→eq [] [] h = refl
beq→eq [] (d ∷ t) h = cc
beq→eq (c ∷ s) [] h = cc
beq→eq (c ∷ s) (d ∷ t) h = ground (arith, beq→eq s t)

pub beq_iff : (s t : Bytes) → (beq s t ≡ true) ↔ (s ≡ t)
beq_iff s t = (beq→eq s t, λ e. rw e (beq_refl t))

-- `find(c) != npos`.
unfoldable pub contains : ℕ → Bytes → Bool
contains c [] = false
contains c (d ∷ s) = (d == c) || contains c s

-- No byte of the text is `c`.
abbrev pub Lacks : ℕ → Bytes → Type 0
Lacks c = All λ d. d ≢ c

pub Lacks-of_contains : (c : ℕ) (s : Bytes) → contains c s ≡ false → Lacks c s
unfolding contains
Lacks-of_contains c [] h = tt
Lacks-of_contains c (d ∷ s) h = ground (arith, Lacks-of_contains c s)

pub contains_of_Lacks : (c : ℕ) (s : Bytes) → Lacks c s → contains c s ≡ false
unfolding contains
contains_of_Lacks c [] h = refl
contains_of_Lacks c (d ∷ s) (p, ps) = ground (arith, contains_of_Lacks c s ps)
