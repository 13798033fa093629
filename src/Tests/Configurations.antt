-- ===== src/Tests/Configurations.antt =====
-- The theorem on the configuration of the backend at a concrete input.
use Prim.Native.String.{String}
use he_transformer_research.Base.{ℕ, ◌≡◌, refl, true, false, none, List, [], ◌∷◌, ok}
use he_transformer_research.HeUtil.{string_to_bool}
use he_transformer_research.Configuration.{
  Texts, Settings, any_config_from_client, set_config, set_options, set_option, set_tensor,
  insert_or_assign, apply_settings, apply_setting, check_settings,
}
use he_transformer_research.Configuration.Checked.{set_config-client}
use he_transformer_research.Tests.World.{degrees, no_json}
use he_transformer_research.Tests.Parameters.{chosen}

abbrev plain_texts : Texts
plain_texts = record { to_lower = λ s. s; split = λ s. s ∷ []; to_size = λ s. ok 7 }

abbrev SettingsOf : Type 0
SettingsOf = Settings {K = ℕ} degrees no_json (λ f. none) plain_texts (λ p. ok 1)

abbrev before : SettingsOf
before = record {
  enable_client = false;
  enable_garbled_circuit = false;
  mask_gc_inputs = false;
  mask_gc_outputs = false;
  num_garbled_circuit_threads = 1;
  port = 34000;
  encryption_params = chosen;
  context = 0;
  config_tensors = [];
}

abbrev after : SettingsOf
after = record before {
  enable_client = true;
  enable_garbled_circuit = true;
  port = 7;
  config_tensors = ("x", record { from_client = true; encrypted = false; packed = false }) ∷ [];
}

abbrev config : List (String × String)
config =
    ("enable_client", "yes") ∷ ("enable_gc", "1") ∷ ("port", "7") ∷ ("x:0", "client_input") ∷ []

accepted : set_config degrees no_json (λ f. none) plain_texts (λ p. ok 1) config before ≡ ok after
unfolding set_config set_options set_option set_tensor insert_or_assign apply_settings apply_setting
    check_settings any_config_from_client string_to_bool
accepted = refl

set_config-client_example :
    (any_config_from_client after.config_tensors ≡ true → after.enable_client ≡ true)
    × (after.enable_garbled_circuit ≡ true → after.enable_client ≡ true)
set_config-client_example =
    set_config-client degrees no_json (λ f. none) plain_texts (λ p. ok 1) config before after
      accepted
