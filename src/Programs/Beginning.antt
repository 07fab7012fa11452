-- ===== src/Programs/Beginning.antt =====
-- The command line and the settings file, with which every program begins, keep to the machine.
use web_cloud_disk.Base.{
  codes, is_ok, ap, sym, ◌∙◌, ◌≡◌, refl, Bool, false, some, List, Bytes, Result, success, failure,
  arith, Bool-cases, Result-cases, inl, inr,
}
use web_cloud_disk.CommandLine.{ConfigCommandLineOptions, parse_config_command_line}
use web_cloud_disk.CommandLine.Forms.{
  Form, help, config, help_config, config_help, parse_config_command_line-Form,
}
use web_cloud_disk.Config.Load.{Opened, load_config_file}
use web_cloud_disk.Programs.{Program, with_path, with_options, or_exit, with_config, open_config}
use web_cloud_disk.Programs.Lifecycle.{
  Kind, Phase, asked, mistaken, given, cold, faulty, refused, Step, Starts, Ends, Conforms,
}
use web_cloud_disk.Programs.Conformance.{or_exit-Conforms}

module _ (kind : Kind) where
  module _ {A : Type 0} (normal : Bytes → Bytes)
      (loader : (Bytes → Bytes → Bytes → Bytes) → Bytes → Result A) where
    -- The settings file is accepted.
    abbrev pub loads : Bytes → Opened → Bool
    loads path opened = is_ok (load_config_file normal path opened loader)

    loaded-Conforms :
        (path : Bytes) (opened : Opened) (rest : A → Program)
        → ((a : A) → Conforms kind cold (rest a))
        → (r : Result A) → load_config_file normal path opened loader ≡ r
        → (q : Phase) × Step kind (given path (loads path)) (open_config path) opened q
          × Conforms kind q (or_exit r rest)
    unfolding or_exit
    loaded-Conforms path opened rest h (success a) e =
        (cold, Step.settings path (loads path) opened (ap is_ok e), h a)
    loaded-Conforms path opened rest h (failure x) e = (
      faulty,
      Step.no_settings path (loads path) opened (ap is_ok e),
      or_exit-Conforms kind faulty x rest Step.complain,
    )

    pub with_config-Conforms :
        (path : Bytes) (rest : A → Program)
        → ((a : A) → Conforms kind cold (rest a))
        → Conforms kind (given path (loads path)) (with_config normal loader path rest)
    unfolding with_config
    with_config-Conforms path rest h = λ opened.
        loaded-Conforms path opened rest h (load_config_file normal path opened loader) refl

  -- Options without a request for help name a file.
  given_path :
      {args : List Bytes} {o : ConfigCommandLineOptions}
      → Form args o
      → o.show_help ≡ false
      → (p : Bytes) × (o.config_file ≡ some p)
  given_path (help h v) e = absurd (ground arith)
  given_path (config c p v w) e = (p, refl)
  given_path (help_config h c p v w x) e = (p, refl)
  given_path (config_help c p h v w x) e = (p, refl)

  pub with_options-Conforms :
      (usage_text : Bytes) (accepts : Bytes → Opened → Bool) (arguments : List Bytes)
      (rest : Bytes → Program)
      → ((path : Bytes) → Conforms kind (given path (accepts path)) (rest path))
      → (p : Phase) × Starts usage_text accepts arguments p
        × Conforms kind p (with_options usage_text arguments rest)
  unfolding with_options with_path codes
  with_options-Conforms usage_text accepts arguments rest h =
      elim (Result-cases (parse_config_command_line arguments)) [
        | inr (e, parsed) ↦ (
          mistaken,
          Starts.wrong (λ o form.
              absurd (cc (sym parsed ∙ (parse_config_command_line-Form arguments o).1 form))),
          rw (parsed, Conforms)
              λ u. (refused 2, Step.complain_of_line _ (λ n. cc n), Ends.without_log 2),
        )
        | inl (o, parsed) ↦
            let form = (parse_config_command_line-Form arguments o).0 parsed in
            elim (Bool-cases o.show_help) [
              | inl s ↦ (
                asked usage_text,
                Starts.helped o form s,
                rw (parsed, s, Conforms) λ u. (refused 0, Step.help usage_text, Ends.without_log 0),
              )
              | inr s ↦
                  let (p, q) = given_path form s in
                  (
                    given p (accepts p),
                    Starts.configured o p form s q,
                    rw (parsed, s, q, Conforms) (h p),
                  )
            ]
      ]
