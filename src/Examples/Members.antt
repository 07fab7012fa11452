-- ===== src/Examples/Members.antt =====
-- A printer and a parser of flat objects, whose members are numbers and texts.
use web_cloud_disk.Base.{
  ℕ, zero, suc, ◌≡◌, refl, ◌⊎◌, inl, inr, List, [], ◌∷◌, ◌++◌, Bytes, length, take, drop,
  take-length-append,
}

abbrev pub Scalar : Type 0
Scalar = ℕ ⊎ Bytes

abbrev pub Member : Type 0
Member = Bytes × Scalar

abbrev print_value : Scalar → Bytes → Bytes
print_value (inl n) rest = 0 ∷ n ∷ rest
print_value (inr t) rest = 1 ∷ length t ∷ (t ++ rest)

abbrev pub print : List Member → Bytes
print [] = []
print ((k, v) ∷ m) = length k ∷ (k ++ print_value v (print m))

abbrev read_value : Bytes → Scalar × Bytes
read_value (zero ∷ n ∷ s) = (inl n, s)
read_value (suc x ∷ l ∷ s) = (inr (take l s), drop l s)
read_value (x ∷ []) = (inl 0, [])
read_value [] = (inl 0, [])

abbrev pub read : ℕ → Bytes → List Member
read zero s = []
read (suc n) [] = []
read (suc n) (l ∷ s) = let v = read_value (drop l s) in (take l s, v.0) ∷ read n v.1

drop-length-append : (xs ys : Bytes) → drop (length xs) (xs ++ ys) ≡ ys
drop-length-append [] ys = refl
drop-length-append (x ∷ xs) ys = drop-length-append xs ys

read_print_value : (v : Scalar) (s : Bytes) → read_value (print_value v s) ≡ (v, s)
read_print_value (inl n) s = refl
read_print_value (inr t) s = rw (take-length-append t s, drop-length-append t s) refl

pub read-print : (m : List Member) → read (length m) (print m) ≡ m
read-print [] = refl
read-print ((k, v) ∷ m) =
    rw
      (
        take-length-append k (print_value v (print m)),
        drop-length-append k (print_value v (print m)),
        read_print_value v (print m),
        read-print m,
      )
      refl
