-- ===== src/CommandLine/Forms.antt =====
-- The command lines that are accepted.
use web_cloud_disk.Base.{
  Bool, true, false, ◌≡◌, ◌↔◌, refl, Option, none, some, List, [], ◌∷◌, Bytes, codes, beq, beq→eq,
  success, arith, Bool-cases, inl, inr,
}
use web_cloud_disk.CommandLine.{
  ConfigCommandLineOptions, is_help, is_config, no_path, parse_arguments, parse_config_command_line,
}

abbrev pub options : Option Bytes → Bool → ConfigCommandLineOptions
options p h = record { config_file = p; show_help = h }

-- The accepted lines: help, a configuration, or both in either order.
pub data Form : List Bytes → ConfigCommandLineOptions → Type 0 where
  help : (h : Bytes) → is_help h ≡ true → Form (h ∷ []) (options none true)
  config :
      (c p : Bytes)
      → is_config c ≡ true
      → no_path p ≡ false
      → Form (c ∷ p ∷ []) (options (some p) false)
  help_config :
      (h c p : Bytes)
      → is_help h ≡ true
      → is_config c ≡ true
      → no_path p ≡ false
      → Form (h ∷ c ∷ p ∷ []) (options (some p) true)
  config_help :
      (c p h : Bytes)
      → is_config c ≡ true
      → no_path p ≡ false
      → is_help h ≡ true
      → Form (c ∷ p ∷ h ∷ []) (options (some p) true)

help_no_config : (a : Bytes) → is_help a ≡ true → is_config a ≡ false
unfolding is_help is_config
help_no_config a h = elim (Bool-cases (beq a (codes "--help"))) [
  | inl e ↦ rw (beq→eq a _ e)
  | inr n ↦ elim (Bool-cases (beq a (codes "-h"))) [
    | inl e ↦ rw (beq→eq a _ e)
    | inr m ↦ absurd (ground arith)
  ]
]

config_no_help : (a : Bytes) → is_config a ≡ true → is_help a ≡ false
config_no_help a h = elim (Bool-cases (is_help a)) [
  | inr e ↦ e
  | inl e ↦ ground (arith, help_no_config a e)
]

-- Once help and a file are given, nothing may follow.
both_done :
    (p : Bytes) (args : List Bytes) (o : ConfigCommandLineOptions)
    → parse_arguments args (options (some p) true) ≡ success o
    → (args ≡ []) × (o ≡ options (some p) true)
unfolding parse_arguments
both_done p [] o h = (refl, ground arith)
both_done p (a ∷ []) o h = absurd (ground arith)
both_done p (a ∷ b ∷ rest) o h = absurd (ground arith)

-- What must hold for a second option of the other kind to be read.
config_read :
    (a b : Bytes) (rest : List Bytes) (o st : ConfigCommandLineOptions)
    → is_help a ≡ false
    → parse_arguments (a ∷ b ∷ rest) st ≡ success o
    → (is_config a ≡ true)
      × (no_path b ≡ false)
      × (parse_arguments rest (record st { config_file = some b }) ≡ success o)
unfolding parse_arguments
config_read a b rest o st n e = (ground arith, ground arith, ground arith)

help_done :
    (h : Bytes) (args : List Bytes) (o : ConfigCommandLineOptions)
    → is_help h ≡ true
    → parse_arguments args (options none true) ≡ success o
    → Form (h ∷ args) o
unfolding parse_arguments
help_done h [] o v e = let same : options none true ≡ o = ground arith in rw (← same) (help h v)
help_done h (a ∷ []) o v e = absurd (ground arith)
help_done h (a ∷ b ∷ rest) o v e = elim (Bool-cases (is_help a)) [
  | inl n ↦ absurd (ground arith)
  | inr n ↦
      let (c, p, q) = config_read a b rest o (options none true) n e in
      let (nil, same) = both_done b rest o q in rw (nil, same) (help_config h a b v c p)
]

config_done :
    (c p : Bytes) (args : List Bytes) (o : ConfigCommandLineOptions)
    → is_config c ≡ true
    → no_path p ≡ false
    → parse_arguments args (options (some p) false) ≡ success o
    → Form (c ∷ p ∷ args) o
unfolding parse_arguments
config_done c p [] o v w e =
    let same : options (some p) false ≡ o = ground arith in rw (← same) (config c p v w)
config_done c p (a ∷ []) o v w e =
    let same : options (some p) true ≡ o = ground arith in
    rw (← same) (config_help c p a v w (ground arith))
config_done c p (a ∷ b ∷ rest) o v w e = absurd (ground (arith, both_done p (b ∷ rest) o))

sound :
    (args : List Bytes) (o : ConfigCommandLineOptions)
    → parse_config_command_line args ≡ success o
    → Form args o
unfolding parse_config_command_line
sound [] o e = absurd (ground arith)
sound (a ∷ []) o e = elim (Bool-cases (is_help a)) [
  | inl n ↦ let same : options none true ≡ o = ground arith in rw (← same) (help a n)
  | inr n ↦ absurd (ground arith)
]
sound (a ∷ b ∷ rest) o e = elim (Bool-cases (is_help a)) [
  | inl n ↦ help_done a (b ∷ rest) o n (ground arith)
  | inr n ↦
      let (c, p, q) = config_read a b rest o (options none false) n e in
      config_done a b rest o c p q
]

complete :
    {args : List Bytes} {o : ConfigCommandLineOptions}
    → Form args o
    → parse_config_command_line args ≡ success o
unfolding parse_config_command_line
complete (help h v) = ground arith
complete (config c p v w) = ground (arith, config_no_help c v)
complete (help_config h c p v w x) = ground (arith, config_no_help c w)
complete (config_help c p h v w x) = ground (arith, config_no_help c v)

-- Exactly the lines of these forms are accepted, and they give these options.
pub parse_config_command_line-Form :
    (args : List Bytes) (o : ConfigCommandLineOptions)
    → (parse_config_command_line args ≡ success o) ↔ Form args o
parse_config_command_line-Form args o = (sound args o, complete)
