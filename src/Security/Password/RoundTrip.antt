-- ===== src/Security/Password/RoundTrip.antt =====
-- A hash that `hash` made, read back by `verify` and `needs_rehash`.
use web_cloud_disk.Base.{
  ℕ, zero, suc, ◌-◌, ◌≤◌, ◌≡◌, refl, ap, ◌∙◌, [], ◌∷◌, ◌++◌, Bytes, arith, true, some, success,
  length, length-append, take, take-length-append, Result-cases, inl, inr, beq_refl, ltb, Lacks,
}
use web_cloud_disk.Numbers.{max_int, to_string}
use web_cloud_disk.Numbers.RoundTrip.{from_chars_int-to_string, to_string-Lacks}
use web_cloud_disk.Security.Crypto.{Crypto, CryptoLaws, zeros, filler}
use web_cloud_disk.Security.Password.{
  algorithm, separator, base64_encode, base64_decode, derive, split_hash, hash_fields, hash,
  check_digest, verify, needs_rehash,
}
use web_cloud_disk.Security.Password.Split.{split_hash_part, split_hash_last}

length-zeros : (n : ℕ) → length (zeros n) ≡ n
length-zeros zero = refl
length-zeros (suc n) = ap suc (length-zeros n)

-- The text of a hash.
abbrev pub encoded : Crypto → ℕ → Bytes → Bytes → Bytes
encoded c iterations salt digest =
    algorithm
    ++ (separator
        ∷ (to_string iterations
            ++ (separator ∷ (base64_encode c salt ++ (separator ∷ base64_encode c digest)))))

algorithm-Lacks : Lacks separator algorithm
unfolding algorithm
algorithm-Lacks = omega arith

module _ (c : Crypto) (laws : CryptoLaws c) where
  -- Decoding undoes encoding for every text that is not empty.
  pub base64_decode-encode :
      (d : Bytes) → 1 ≤ length d → base64_decode c (base64_encode c d) ≡ success d
  unfolding base64_decode base64_encode
  base64_decode-encode d h = ground (
    arith,
    laws.decode_encode d,
    laws.encode_length d,
    laws.encode_padding d,
    cut,
    nonempty (c.encode_block d),
  )
    where
      n : ℕ
      n = length d

      cut : take (length (d ++ zeros (filler n)) - filler n) (d ++ zeros (filler n)) ≡ d
      cut =
          rw (length-append d (zeros (filler n)), length-zeros (filler n))
            (ap (λ k. take k (d ++ zeros (filler n))) (omega arith) ∙ take-length-append d _)

      nonempty : (s : Bytes) → 1 ≤ length s → s ≡ [] → ⊥
      nonempty s p e = ground arith

  pub hash_fields-encoded :
      (n : ℕ) (salt digest : Bytes)
      → hash_fields (split_hash (encoded c n salt digest))
        ≡ some (to_string n, base64_encode c salt, base64_encode c digest)
  unfolding hash_fields base64_encode
  hash_fields-encoded n salt digest = rw (
    split_hash_part algorithm _ algorithm-Lacks,
    split_hash_part (to_string n) _ (to_string-Lacks separator n refl),
    split_hash_part (c.encode_block salt) _ (laws.encode_alphabet salt),
    split_hash_last (c.encode_block digest) (laws.encode_alphabet digest),
    beq_refl algorithm,
  )

  derive-length :
      (password salt : Bytes) (n : ℕ) (d : Bytes)
      → derive c password salt n ≡ success d
      → length d ≡ 32
  unfolding derive
  derive-length password salt n d h = ground (arith, laws.pbkdf2_length password salt n d)

  check_digest_encoded :
      (password salt d : Bytes) (n : ℕ)
      → length salt ≡ 16
      → derive c password salt n ≡ success d
      → check_digest c password n (base64_encode c salt) (base64_encode c d) ≡ success true
  unfolding check_digest
  check_digest_encoded password salt d n hs hd =
      rw
        (
          base64_decode-encode salt (omega arith),
          base64_decode-encode d (omega (arith, derive-length password salt n d hd)),
          check_digest,
        )
        (ground (arith, hs, hd, derive-length password salt n d hd, laws.memcmp_refl d))

  -- A hash made from a 16-byte salt with a positive `int` of rounds verifies for the same password.
  pub verify-hash :
      (n : ℕ) (salt password e : Bytes)
      → 1 ≤ n
      → n ≤ max_int
      → length salt ≡ 16
      → hash c n (some salt) password ≡ success e
      → verify c password e ≡ success true
  unfolding hash verify
  verify-hash n salt password e lo hi hs h = elim (Result-cases (derive c password salt n)) [
    | inl (d, hd) ↦
        let text : encoded c n salt d ≡ e = ground (arith, hd) in
        rw (← text) (
          ground (
            arith,
            hash_fields-encoded n salt d,
            from_chars_int-to_string n hi,
            check_digest_encoded password salt d n hs hd,
          ))
    | inr (x, hd) ↦ absurd (ground (arith, hd))
  ]

  -- A hash is due for renewal exactly when it was made with fewer rounds than the current setting.
  pub needs_rehash-hash :
      (current n : ℕ) (salt password e : Bytes)
      → n ≤ max_int
      → hash c n (some salt) password ≡ success e
      → needs_rehash current e ≡ ltb n current
  unfolding hash needs_rehash
  needs_rehash-hash current n salt password e hi h =
      elim (Result-cases (derive c password salt n)) [
        | inl (d, hd) ↦
            let text : encoded c n salt d ≡ e = ground (arith, hd) in
            rw (← text)
              (ground (arith, hash_fields-encoded n salt d, from_chars_int-to_string n hi))
        | inr (x, hd) ↦ absurd (ground (arith, hd))
      ]
