-- ===== src/Examples/Base64.antt =====
-- A function that fits what is documented of `EVP_EncodeBlock`: four characters for three bytes.
use web_cloud_disk.Base.{
  ℕ, suc, ◌+◌, ◌-◌, ◌*◌, ◌/◌, ◌≡◌, refl, [], ◌∷◌, ◌++◌, Bytes, length, Lacks, arith, ◌∙◌,
}
use web_cloud_disk.Security.Crypto.{zeros, filler, padding}

-- A character is the byte and 300.
abbrev pub encode : Bytes → Bytes
encode [] = []
encode (a ∷ []) = (a + 300) ∷ 300 ∷ b'=' ∷ b'=' ∷ []
encode (a ∷ b ∷ []) = (a + 300) ∷ (b + 300) ∷ 300 ∷ b'=' ∷ []
encode (a ∷ b ∷ c ∷ s) = (a + 300) ∷ (b + 300) ∷ (c + 300) ∷ 300 ∷ encode s

abbrev pub decode : Bytes → Bytes
decode [] = []
decode (x ∷ []) = []
decode (x ∷ y ∷ []) = []
decode (x ∷ y ∷ z ∷ []) = []
decode (x ∷ y ∷ z ∷ w ∷ s) = (x - 300) ∷ (y - 300) ∷ (z - 300) ∷ decode s

pub length-encode : (d : Bytes) → length (encode d) ≡ 4 * ((length d + 2) / 3)
length-encode [] = refl
length-encode (a ∷ []) = refl
length-encode (a ∷ b ∷ []) = refl
length-encode (a ∷ b ∷ c ∷ s) = omega (arith, length-encode s)

pub encode-Lacks : (d : Bytes) → Lacks b'$' (encode d)
encode-Lacks [] = tt
encode-Lacks (a ∷ []) = (omega arith, (omega arith, (omega arith, (omega arith, tt))))
encode-Lacks (a ∷ b ∷ []) = (omega arith, (omega arith, (omega arith, (omega arith, tt))))
encode-Lacks (a ∷ b ∷ c ∷ s) =
    (omega arith, (omega arith, (omega arith, (omega arith, encode-Lacks s))))

filler_step : (n : ℕ) → filler (suc (suc (suc n))) ≡ filler n
filler_step n = omega arith

decode-encode_step : (a : ℕ) → (a + 300) - 300 ≡ a
decode-encode_step a = omega arith

pub decode-encode : (d : Bytes) → decode (encode d) ≡ d ++ zeros (filler (length d))
decode-encode [] = refl
decode-encode (a ∷ []) = rw (decode-encode_step a) refl
decode-encode (a ∷ b ∷ []) = rw (decode-encode_step a, decode-encode_step b) refl
decode-encode (a ∷ b ∷ c ∷ s) =
    rw
      (
        decode-encode_step a,
        decode-encode_step b,
        decode-encode_step c,
        decode-encode s,
        filler_step (length s),
      )
      refl

pub padding-encode : (d : Bytes) → padding (encode d) ≡ filler (length d)
unfolding padding
padding-encode [] = refl
padding-encode (a ∷ []) = refl
padding-encode (a ∷ b ∷ []) = ground arith
padding-encode (a ∷ b ∷ c ∷ []) = ground arith
padding-encode (a ∷ b ∷ c ∷ d ∷ []) = padding-encode (d ∷ [])
padding-encode (a ∷ b ∷ c ∷ d ∷ e ∷ []) = padding-encode (d ∷ e ∷ [])
padding-encode (a ∷ b ∷ c ∷ d ∷ e ∷ f ∷ s) = padding-encode (d ∷ e ∷ f ∷ s) ∙ omega arith
