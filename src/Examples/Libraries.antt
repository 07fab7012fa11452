-- ===== src/Examples/Libraries.antt =====
-- Stand-ins for OpenSSL, jwt-cpp and nlohmann::json that do what the model relies on.
use web_cloud_disk.Base.{
  ℕ, zero, suc, ◌+◌, ◌-◌, ◌/◌, ◌%◌, ◌*◌, ◌^◌, ◌≤◌, ◌<◌, ◌≡◌, refl, inl, inr, Bool, true, false,
  Option, none, some, List, [], ◌∷◌, ◌++◌, map, Bytes, arith, ap, ◌∙◌, sym, beq, beq_refl,
  if◌then◌else◌, leb, length, take, All, contains,
}
use web_cloud_disk.Security.Crypto.{Crypto, CryptoLaws, digested, zeros}
use web_cloud_disk.Security.Jwt.{JwtLibrary, Decoded, ticks_per_second}
use web_cloud_disk.Security.Jwt.Laws.{JwtLaws}
use web_cloud_disk.Http.{has_blank}
use web_cloud_disk.Gateway.Trust.{CompactLaws}
use web_cloud_disk.Messaging.Json.{JsonLibrary, JsonLaws, Plain, lookup}
use web_cloud_disk.Examples.Base64.{
  encode, decode, length-encode, encode-Lacks, decode-encode, padding-encode,
}
use web_cloud_disk.Examples.Members.{Scalar, Member, print, read, read-print}

-- The first 32 of the bytes and zeros.
abbrev block : Bytes → Bytes
block s = take 32 (s ++ zeros 32)

abbrev pub crypto : Crypto
crypto = record {
  encode_block = encode;
  decode_block = λ s. some (decode s);
  pbkdf2 = λ p s n. some (block (p ++ s));
  memcmp = λ a b n. if beq (take n a) (take n b) then 0 else 1;
  sha256 = λ s. digested (map (λ b. b % 256) (block s));
}

length-take-zeros : (m n : ℕ) (s : Bytes) → n ≤ m → length (take n (s ++ zeros m)) ≡ n
length-take-zeros m zero s h = refl
length-take-zeros zero (suc n) s h = absurd (omega arith)
length-take-zeros (suc m) (suc n) [] h = ap suc (length-take-zeros m n [] (omega arith))
length-take-zeros (suc m) (suc n) (x ∷ s) h = ap suc (length-take-zeros (suc m) n s (omega arith))

length-map : (f : ℕ → ℕ) (s : Bytes) → length (map f s) ≡ length s
length-map f [] = refl
length-map f (x ∷ s) = ap suc (length-map f s)

map_bytes : (s : Bytes) → All (λ b. b < 256) (map (λ b. b % 256) s)
map_bytes [] = tt
map_bytes (x ∷ s) = (omega arith, map_bytes s)

some-injective : (a b : Bytes) → some a ≡ some b → a ≡ b
some-injective a b e = cc e

digested-injective : (a b : Bytes) → digested a ≡ digested b → a ≡ b
digested-injective a b e = cc e

pub crypto_laws : CryptoLaws crypto
crypto_laws = record {
  encode_length = length-encode;
  encode_alphabet = encode-Lacks;
  encode_padding = padding-encode;
  decode_encode = λ d. ap some (decode-encode d);
  pbkdf2_length = λ p s n d e.
      ap length (sym (some-injective _ d e)) ∙ length-take-zeros 32 32 (p ++ s) (omega arith);
  memcmp_refl = λ a. rw (beq_refl (take (length a) a)) refl;
  sha256_length = λ s d e.
      ap length (sym (digested-injective _ d e))
      ∙ length-map (λ b. b % 256) (block s)
      ∙ length-take-zeros 32 32 s (omega arith);
  sha256_bytes = λ s d e. rw (← digested-injective _ d e) (map_bytes (block s));
}

-- A token carries whole seconds, the clock has fractions of them.
abbrev uid_within : ℕ → Bytes → Option Decoded
uid_within now [] = none
uid_within now (seconds ∷ uid) =
    if leb now (seconds * ticks_per_second)
    then some (record { has_uid = true; uid_text = some uid })
    else none

uid_within_time :
    (now seconds : ℕ) (uid : Bytes)
    → now ≤ seconds * ticks_per_second
    → uid_within now (seconds ∷ uid) ≡ some (record { has_uid = true; uid_text = some uid })
uid_within_time now seconds uid h = ground arith

-- Characters that are no blanks stand for bytes.
abbrev pub raised : Bytes → Bytes
raised = map (λ b. b + 33)

lowered-raised : (s : Bytes) → map (λ b. b - 33) (raised s) ≡ s
lowered-raised [] = refl
lowered-raised (b ∷ s) = ground (arith, lowered-raised s)

contains-raised : (c : ℕ) (s : Bytes) → c ≤ 32 → contains c (raised s) ≡ false
unfolding contains
contains-raised c [] h = refl
contains-raised c (b ∷ s) h = ground (arith, contains-raised c s h)

has_blank-raised : (s : Bytes) → has_blank (raised s) ≡ false
unfolding has_blank
has_blank-raised s =
    rw
      (
        contains-raised b' ' s (omega arith),
        contains-raised 9 s (omega arith),
        contains-raised 13 s (omega arith),
      )
      (contains-raised 10 s (omega arith))

abbrev pub seconds_of : ℕ → ℕ
seconds_of time = time / ticks_per_second

-- A token is the second of its end and the user's ID.
abbrev pub jwt_library : JwtLibrary
jwt_library = record {
  sign = λ secret c. some (raised (seconds_of c.expires_at ∷ c.uid));
  decode_verified = λ secret issuer subject now token. uid_within now (map (λ b. b - 33) token);
}

pub jwt_laws : JwtLaws jwt_library
jwt_laws = record {
  sign_verified = λ secret token c now e held lo hi. rw (← some-injective _ token e) (
      ap (uid_within now) (lowered-raised (seconds_of c.expires_at ∷ c.uid))
      ∙ uid_within_time now (seconds_of c.expires_at) c.uid hi);
}

pub compact_laws : CompactLaws jwt_library
compact_laws = record {
  compact = λ secret token c e.
      rw (← some-injective _ token e)
        (λ n. absurd (ground arith), has_blank-raised (seconds_of c.expires_at ∷ c.uid));
}

pub data Json : Type 0 where
  scalar : Scalar → Json
  members : List Member → Json

abbrev to_scalar : Json → Scalar
to_scalar (scalar x) = x
to_scalar (members m) = inl 0

abbrev to_members : List (Bytes × Json) → List Member
to_members [] = []
to_members ((k, v) ∷ m) = (k, to_scalar v) ∷ to_members m

abbrev is_object : Json → Bool
is_object (scalar x) = false
is_object (members m) = true

abbrev find : Bytes → List Member → Option Json
find k [] = none
find k ((j, v) ∷ m) = let rest = find k m in if beq j k then some (scalar v) else rest

abbrev member : Json → Bytes → Option Json
member (scalar x) k = none
member (members m) k = find k m

abbrev is_number : Json → Bool
is_number (scalar (inl n)) = true
is_number (scalar (inr t)) = false
is_number (members m) = false

abbrev is_text : Json → Bool
is_text (scalar (inl n)) = false
is_text (scalar (inr t)) = true
is_text (members m) = false

abbrev to_number : Json → ℕ
to_number (scalar (inl n)) = n
to_number (scalar (inr t)) = 0
to_number (members m) = 0

abbrev to_text : Json → Bytes
to_text (scalar (inl n)) = []
to_text (scalar (inr t)) = t
to_text (members m) = []

abbrev print_json : Json → Bytes
print_json (scalar x) = []
print_json (members m) = length m ∷ print m

abbrev parse : Bytes → Option Json
parse [] = none
parse (n ∷ s) = some (members (read n s))

abbrev pub json : JsonLibrary Json
json = record {
  parse = parse;
  is_object = is_object;
  member = member;
  is_number_unsigned = is_number;
  is_string = is_text;
  get_u32 = λ j. to_number j % 2 ^ 32;
  get_u64 = to_number;
  get_string = to_text;
  number = λ n. scalar (inl n);
  text = λ t. scalar (inr t);
  object = λ m. members (to_members m);
  array = λ xs. scalar (inl 0);
  dump = print_json;
}

find-members :
    (m : List (Bytes × Json)) (k : Bytes) → All (Plain json) m → find k (to_members m) ≡ lookup k m
find-members [] k h = refl
find-members ((j, v) ∷ m) k (inl (n, lo, e), h) = rw (find-members m k h, e) refl
find-members ((j, v) ∷ m) k (inr (t, lo, e), h) = rw (find-members m k h, e) refl

pub json_laws : JsonLaws json
json_laws = record {
  parse_dump = λ m h. ap (λ x. some (members x)) (read-print (to_members m));
  is_object_object = λ m. refl;
  member_object = find-members;
  is_number_number = λ n. refl;
  is_string_text = λ t. refl;
  get_u32_number = λ n. refl;
  get_u64_number = λ n h. refl;
  get_string_text = λ t. refl;
}

-- MySQL's escaping of texts that need none.
abbrev pub escape : Bytes → Bytes
escape s = s
