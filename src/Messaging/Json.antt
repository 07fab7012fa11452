-- ===== src/Messaging/Json.antt =====
-- What the program takes from nlohmann::json, as parameters, and what it relies on.
use web_cloud_disk.Base.{
  ℕ, ◌%◌, ◌^◌, ◌≤◌, ◌<◌, ◌≡◌, ◌⊎◌, Bool, true, Option, none, some, List, [], ◌∷◌, Bytes, beq,
  if◌then◌else◌, All,
}
use web_cloud_disk.Numbers.{max_u64}

pub record JsonLibrary (J : Type 0) : Type 0 where
  -- `parse(text, nullptr, false)`; `none` is a discarded value
  pub parse : Bytes → Option J
  pub is_object : J → Bool
  -- `contains` and `operator[]`, or `find`
  pub member : J → Bytes → Option J
  pub is_number_unsigned : J → Bool
  pub is_string : J → Bool
  -- `get<uint32_t>()`, `get<uint64_t>()`, `get<std::string>()`
  pub get_u32 : J → ℕ
  pub get_u64 : J → ℕ
  pub get_string : J → Bytes
  -- values from an unsigned number, from a string and from a list of members, an array; `dump()`
  pub number : ℕ → J
  pub text : Bytes → J
  pub object : List (Bytes × J) → J
  pub array : List J → J
  pub dump : J → Bytes

module _ {J : Type 0} where
  abbrev pub lookup : Bytes → List (Bytes × J) → Option J
  lookup k [] = none
  lookup k ((j, v) ∷ m) = if beq j k then some v else lookup k m

  -- Numbers of 64 bits and ASCII texts are printed as they are.
  abbrev pub Plain : JsonLibrary J → Bytes × J → Type 0
  Plain lib (k, v) =
      ((n : ℕ) × (n ≤ max_u64) × (v ≡ lib.number n))
      ⊎ ((t : Bytes) × All (λ c. c < 128) t × (v ≡ lib.text t))

-- A printed object with such members is parsed to itself; members are found by their names; the
-- conversions give the values back, the 32-bit one without its upper bits.
pub record JsonLaws {J : Type 0} (lib : JsonLibrary J) : Type 0 where
  pub parse_dump :
      (m : List (Bytes × J))
      → All (Plain lib) m
      → lib.parse (lib.dump (lib.object m)) ≡ some (lib.object m)
  pub is_object_object : (m : List (Bytes × J)) → lib.is_object (lib.object m) ≡ true
  pub member_object :
      (m : List (Bytes × J)) (k : Bytes)
      → All (Plain lib) m
      → lib.member (lib.object m) k ≡ lookup k m
  pub is_number_number : (n : ℕ) → lib.is_number_unsigned (lib.number n) ≡ true
  pub is_string_text : (t : Bytes) → lib.is_string (lib.text t) ≡ true
  pub get_u32_number : (n : ℕ) → lib.get_u32 (lib.number n) ≡ n % 2 ^ 32
  pub get_u64_number : (n : ℕ) → n ≤ max_u64 → lib.get_u64 (lib.number n) ≡ n
  pub get_string_text : (t : Bytes) → lib.get_string (lib.text t) ≡ t
