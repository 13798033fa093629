-- ===== src/Configuration/Checked.antt =====
-- What a configuration that `set_config` of src/seal/he_seal_backend.cpp accepts has.
use Prim.Native.String.{String}
use he_transformer_research.Base.{
  ◌≡◌, refl, ap, sym, Bool, true, false, not, ◌&&◌, ◌||◌, Option, List, Result, ok, check_failed,
  require-true, bind-value, ◌∙◌,
}
use he_transformer_research.Json.{Json}
use he_transformer_research.EncryptionParameters.{SealParms, Params}
use he_transformer_research.Configuration.{
  Texts, Settings, any_config_from_client, check_settings, set_options, set_config,
}

or_not : (a b : Bool) → (a || not b) ≡ true → b ≡ true → a ≡ true
or_not true b h on = refl
or_not false true h on = h
or_not false false h on = on

and_right : (a b : Bool) → (a && b) ≡ true → b ≡ true
and_right true b h = h
and_right false true h = refl
and_right false false h = h

module _ {D Int K : Type 0} (S : SealParms D Int) (J : Json D Int) (file : String → Option String)
    (T : Texts) (generate_context : Params S → Result K) where
  abbrev SettingsOf : Type 0
  SettingsOf = Settings S J file T generate_context

  -- Settings that are accepted differ from those before in the garbled circuits only, which are on
  -- where they and the client are enabled.
  check_settings-cases :
      (s s' : SettingsOf)
      → check_settings S J file T generate_context s ≡ ok s'
      → ((s.enable_client || not (any_config_from_client s.config_tensors)) ≡ true)
        × ((record s { enable_garbled_circuit = s.enable_garbled_circuit && s.enable_client }) ≡ s')
  unfolding check_settings
  check_settings-cases s s' h =
      let allowed = s.enable_client || not (any_config_from_client s.config_tensors) in
      let (a, e) =
        require-true allowed check_failed
          (ok (record s { enable_garbled_circuit = s.enable_garbled_circuit && s.enable_client }))
          h in
      (a, cc)

  -- A backend whose configuration was accepted has the client enabled where a tensor of the
  -- configuration is from the client, and where garbled circuits are enabled.
  pub set_config-client :
      (config : List (String × String)) (s s' : SettingsOf)
      → set_config S J file T generate_context config s ≡ ok s'
      → (any_config_from_client s'.config_tensors ≡ true → s'.enable_client ≡ true)
        × (s'.enable_garbled_circuit ≡ true → s'.enable_client ≡ true)
  unfolding set_config
  set_config-client config s s' h =
      let (mid, q, checked) =
        bind-value (set_options S J file T generate_context config s)
          (check_settings S J file T generate_context) h in
      let (allowed, same) = check_settings-cases mid s' checked in
      let tensors : mid.config_tensors ≡ s'.config_tensors = ap (λ x. x.config_tensors) same in
      let client : mid.enable_client ≡ s'.enable_client = ap (λ x. x.enable_client) same in
      let gc : (mid.enable_garbled_circuit && mid.enable_client) ≡ s'.enable_garbled_circuit =
        ap (λ x. x.enable_garbled_circuit) same in
      (
        λ from.
            sym client
            ∙ or_not mid.enable_client (any_config_from_client mid.config_tensors) allowed
                (ap any_config_from_client tensors ∙ from),
        λ on. sym client ∙ and_right mid.enable_garbled_circuit mid.enable_client (gc ∙ on),
      )
