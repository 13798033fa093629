-- ===== src/Server/Handshake/Whole.antt =====
-- The handshake from both sides: `server_setup` and `handle_message` of src/seal/he_seal_executable.cpp
-- with `handle_encryption_parameters_response` of src/seal/he_seal_client.cpp.
use Prim.Native.String.{String}
use mathlib.Core.Path.{subst}
use he_transformer_research.Base.{
  ℕ, ◌≡◌, refl, ap, Bool, true, false, not, Option, none, some, List, [], ltb, ◌∷◌, ◌++◌, length,
  replicate, Result, ok,
}
use he_transformer_research.Cipher.Rescale.{SecurityLevel, seal_security_level}
use he_transformer_research.EncryptionParameters.{SealParms, Params, validate_parameters}
use he_transformer_research.EncryptionParameters.Wire.{ByteForms, save, load}
use he_transformer_research.EncryptionParameters.Wire.RoundTrip.{load-save_roundtrip}
use he_transformer_research.Protocol.{PbMessage, request, response, bare}
use he_transformer_research.Client.{
  Client, KeyGenerator, Keys, keys_message, set_seal_context, send_public_and_relin_keys,
  handle_encryption_parameters_response,
}
use he_transformer_research.Server.{
  Server, Parameter, Entry, str, new_server, server_setup, count_from_client,
  check_client_supports_function, inference_tensors, send_inference_shape, load_public_key,
  load_eval_key,
}
use he_transformer_research.Machine.{Mem}
use he_transformer_research.Client.Environment.{Environment}
use he_transformer_research.Client.Handlers.{State, Message}
use he_transformer_research.Client.Dispatch.{
  handle_message as client_handles, by_type as client_by_type, handle_response,
}
use he_transformer_research.Server.Dispatch.{handle_message as server_handles}
use he_transformer_research.Server.Handshake.{
  take_keys, take_public_key, take_eval_key, ask_for_inputs, ask_for_inputs-set, sent_after,
  take_keys-sent,
}

abbrev pub relin_of : Bool → List ℕ → Option (List ℕ)
relin_of switching relin = elim switching [ true ↦ some relin | false ↦ none ]

module _ {D Int : Type 0} (S : SealParms D Int) (W : ByteForms S) (G : KeyGenerator S) where
  -- What the client makes of the parameters.
  abbrev pub keys_of : Params S → SecurityLevel → Keys
  keys_of p level = record {
    public_key = G.public_key p.seal_parms level;
    relin_keys =
        relin_of (G.using_keyswitching p.seal_parms level) (G.relin_keys p.seal_parms level);
  }

module _ {D Bytes : Type 0} (dump : List (String × Entry D) → String) where
  abbrev pub inputs_request : List Parameter → PbMessage D Bytes
  inputs_request parameters = record (bare request) {
    function = some (dump (("function", str "Parameter") ∷ []));
    he_tensors = inference_tensors parameters;
  }

module _ {D Int Bytes : Type 0} (S : SealParms D Int) (W : ByteForms S) where
  abbrev pub parameters_message : Params S → PbMessage D Bytes
  parameters_message p = record (bare response) { encryption_parameters = some (save S W p) }

  -- The server of a context, once it is set up.
  abbrev started : Bool → Params S → List Parameter → Server D Bytes
  started switching p parameters = record (new_server switching parameters 1) {
    is_setup = true;
    client_inputs = replicate (length parameters) none;
    sent = parameters_message p ∷ [];
  }

module _ {D Int Bytes : Type 0} (S : SealParms D Int) (W : ByteForms S) (G : KeyGenerator S) where
  client_answers :
      (c : Client S Bytes) (p : Params S) (level : SecurityLevel)
      → load S W (save S W p) ≡ ok p
      → seal_security_level p.security_level ≡ ok level
      → (c' : Client S Bytes) × (handle_encryption_parameters_response S W G c
            (parameters_message S W p)
          ≡ ok c')
        × (c'.sent ≡ c.sent ++ (keys_message S W G (keys_of S W G p level) ∷ []))
  unfolding handle_encryption_parameters_response set_seal_context send_public_and_relin_keys
  client_answers c p level loaded known =
      let keys = keys_of S W G p level in
      let c' : Client S Bytes = record c {
        encryption_params = p;
        context = some keys;
        sent = c.sent ++ (keys_message S W G keys ∷ []);
      } in
      (c', rw (loaded, known) refl, refl)

module _ {D Int Bytes : Type 0} (S : SealParms D Int) (W : ByteForms S) (G : KeyGenerator S)
    (loads : List ℕ → Result (Unit {0})) (dump : List (String × Entry D) → String) where
  -- A server that misses the evaluation key just when the context switches keys asks for the inputs.
  server_asks :
      (switching : Bool) (s : Server D Bytes) (key : List ℕ) (relin : List ℕ)
      → s.client_eval_key_set ≡ not switching
      → s.sent_inference_shape ≡ false
      → loads key ≡ ok tt
      → loads relin ≡ ok tt
      → (s' : Server D Bytes) × (take_keys loads dump s (
            keys_message S W G (record { public_key = key; relin_keys = relin_of switching relin }))
          ≡ ok s')
        × (s'.sent ≡ s.sent ++ (inputs_request dump s.parameters ∷ []))
  unfolding take_keys take_public_key take_eval_key ask_for_inputs load_public_key load_eval_key
      keys_message send_inference_shape sent_after
  server_asks true s key relin e1 e2 hk hr =
      take_keys-sent loads dump S W G s key (some relin) e2 e1 hk
        (λ r e. subst (λ o. elim o [ none ↦ Unit {0} | some b ↦ loads b ≡ ok tt ]) e hr)
  server_asks false s key relin e1 e2 hk hr =
      let s1 : Server D Bytes = record s { public_key = some key; client_public_key_set = true } in
      (
        send_inference_shape dump s1,
        rw (hk) (ap ok (ask_for_inputs-set loads dump s1 e2 refl e1)),
        refl,
      )

module _ (E : Environment) (complex_packing : Bool) (loads : List ℕ → Result (Unit {0}))
    (dump : List (String × Entry E.backend.D) → String) where
  open E use {backend, parms, byte_forms, keygen, ngraph, json}
  open backend use {D, Ct, Bytes}

  -- The server takes the keys in its dispatch.
  dispatched :
      (s s' : Server D Bytes) (keys : Keys) (m : Mem D Ct)
      → take_keys loads dump s (keys_message parms byte_forms keygen keys) ≡ ok s'
      → server_handles backend ngraph json complex_packing loads dump s
          (keys_message parms byte_forms keygen keys)
          m
        ≡ ok (s', m)
  unfolding server_handles keys_message
  dispatched s s' keys m taken = rw (taken) refl

  -- A server that has just been made from valid parameters, with a parameter of the client's and one
  -- result, sends them as it is set up; the client that handles them answers with its keys; and the
  -- server that handles these asks for the inputs, whether the context switches keys or not. For a
  -- security level that SEAL has, doubles of 8 bytes that are read back, SEAL parameters that SEAL
  -- loads from what it saved, and keys that SEAL loads.
  pub handshake-asks :
      (tmp : ℕ) (c : State E) (p : Params parms) (level : SecurityLevel)
      (parameters : List Parameter) (m : Mem D Ct)
      → p.scheme_name ≡ "HE_SEAL"
      → validate_parameters parms p ≡ ok tt
      → length (byte_forms.double_bytes p.scale) ≡ 8
      → byte_forms.of_double_bytes (byte_forms.double_bytes p.scale) ≡ p.scale
      → byte_forms.load_parms (byte_forms.save_parms p.seal_parms) ≡ ok p.seal_parms
      → seal_security_level p.security_level ≡ ok level
      → loads (keygen.public_key p.seal_parms level) ≡ ok tt
      → loads (keygen.relin_keys p.seal_parms level) ≡ ok tt
      → ltb 0 (count_from_client parameters) ≡ true
      → let switching = keygen.using_keyswitching p.seal_parms level in
        let server : Server D Bytes = new_server switching parameters 1 in
        let offer : Message E = parameters_message parms byte_forms p in
        let keys : Message E =
          keys_message parms byte_forms keygen (keys_of parms byte_forms keygen p level) in
        (s1 : Server D Bytes) × (c' : State E) × (s2 : Server D Bytes) × (server_setup
            (save parms byte_forms p)
            server
          ≡ ok s1)
        × (s1.sent ≡ offer ∷ [])
        × (client_handles E tmp c offer m ≡ ok (c', m))
        × (c'.sent ≡ c.sent ++ (keys ∷ []))
        × (server_handles backend ngraph json complex_packing loads dump s1 keys m ≡ ok (s2, m))
        × (s2.sent ≡ offer ∷ inputs_request dump parameters ∷ [])
  unfolding server_setup check_client_supports_function new_server client_handles client_by_type
      handle_response
  handshake-asks tmp c p level parameters m name valid len inv parms_ok known hk hr
        some_from_client =
      let loaded = load-save_roundtrip parms byte_forms p name valid len inv parms_ok in
      let (c', answered, client_sent) =
        client_answers parms byte_forms keygen c p level loaded known in
      let switching = keygen.using_keyswitching p.seal_parms level in
      let s1 = started parms byte_forms switching p parameters in
      let (s2, taken, server_sent) =
        server_asks parms byte_forms keygen loads dump switching s1
          (keygen.public_key p.seal_parms level) (keygen.relin_keys p.seal_parms level) refl refl hk
          hr in
      let keys = keys_of parms byte_forms keygen p level in
      (
        s1,
        c',
        s2,
        rw (some_from_client) refl,
        refl,
        rw (answered) refl,
        client_sent,
        dispatched s1 s2 keys m taken,
        server_sent,
      )
