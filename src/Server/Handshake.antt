-- ===== src/Server/Handshake.antt =====
-- The handshake: what `HESealExecutable::handle_message` of src/seal/he_seal_executable.cpp does with
-- the keys of a response.
pub mod Whole
use Prim.Native.String.{String}
use he_transformer_research.Base.{
  ℕ, ◌≡◌, refl, ap, Bool, true, false, not, ◌&&◌, Option, none, some, List, [], ◌∷◌, ◌++◌,
  if◌then◌else◌, Result, ok, ◌>>=◌, arith,
}
use he_transformer_research.EncryptionParameters.{SealParms}
use he_transformer_research.EncryptionParameters.Wire.{ByteForms}
use he_transformer_research.Protocol.{PbMessage, request, bare}
use he_transformer_research.Client.{KeyGenerator, keys_message}
use he_transformer_research.Server.{
  Server, Entry, str, write_message, load_public_key, load_eval_key, inference_tensors,
  send_inference_shape,
}

if-false : {A : Type 0} (b : Bool) (x y : A) → b ≡ false → (if b then x else y) ≡ y
if-false false x y e = refl
if-false true x y e = ground arith

if-true : {A : Type 0} (b : Bool) (x y : A) → b ≡ true → (if b then x else y) ≡ x
if-true true x y e = refl
if-true false x y e = ground arith

module _ {D Bytes : Type 0} (loads : List ℕ → Result (Unit {0}))
    (dump : List (String × Entry D) → String) where
  -- `if (pb_message->has_public_key()) { … }`, and the same for the evaluation key.
  unfoldable pub take_public_key :
      Option (List ℕ) → PbMessage D Bytes → Server D Bytes → Result (Server D Bytes)
  take_public_key none message s = ok s
  take_public_key (some key) message s = load_public_key loads message s

  unfoldable pub take_eval_key :
      Option (List ℕ) → PbMessage D Bytes → Server D Bytes → Result (Server D Bytes)
  take_eval_key none message s = ok s
  take_eval_key (some key) message s = load_eval_key loads message s

  -- The request for the inputs, once both keys are there and it was not sent.
  unfoldable pub ask_for_inputs : Server D Bytes → Server D Bytes
  ask_for_inputs s =
      if not s.sent_inference_shape && s.client_public_key_set && s.client_eval_key_set
      then send_inference_shape dump s
      else s

  unfoldable pub take_keys : Server D Bytes → PbMessage D Bytes → Result (Server D Bytes)
  unfolding take_public_key take_eval_key ask_for_inputs
  take_keys s message = do
    s1 ← take_public_key message.public_key message s
    s2 ← take_eval_key message.eval_key message s1
    ok (ask_for_inputs s2)

  -- The messages that the server has sent after the keys came: with relinearization keys it asks for
  -- the inputs.
  pub sent_after : Server D Bytes → Option (List ℕ) → List (PbMessage D Bytes)
  sent_after s none = s.sent
  sent_after s (some key) =
      let inputs : PbMessage D Bytes = record (bare request) {
        function = some (dump (("function", str "Parameter") ∷ []));
        he_tensors = inference_tensors s.parameters;
      } in
      s.sent ++ (inputs ∷ [])

  ask_for_inputs-unset : (s : Server D Bytes) → s.client_eval_key_set ≡ false → ask_for_inputs s ≡ s
  unfolding ask_for_inputs
  ask_for_inputs-unset s e =
      if-false (not s.sent_inference_shape && s.client_public_key_set && s.client_eval_key_set)
        (send_inference_shape dump s) s (ground arith)

  pub ask_for_inputs-set :
      (s : Server D Bytes)
      → s.sent_inference_shape ≡ false
      → s.client_public_key_set ≡ true
      → s.client_eval_key_set ≡ true
      → ask_for_inputs s ≡ send_inference_shape dump s
  unfolding ask_for_inputs
  ask_for_inputs-set s e1 e2 e3 =
      if-true (not s.sent_inference_shape && s.client_public_key_set && s.client_eval_key_set)
        (send_inference_shape dump s) s (ground arith)

  module _ {Int : Type 0} (S : SealParms D Int) (W : ByteForms S) (G : KeyGenerator S) where
    -- A server that misses the evaluation key, has not asked for the inputs and loads the keys that
    -- come, asks for the inputs if there are relinearization keys, and otherwise sends nothing.
    pub take_keys-sent :
        (s : Server D Bytes) (key : List ℕ) (relin : Option (List ℕ))
        → s.sent_inference_shape ≡ false
        → s.client_eval_key_set ≡ false
        → loads key ≡ ok tt
        → ((r : List ℕ) → relin ≡ some r → loads r ≡ ok tt)
        → (s' : Server D Bytes) × (take_keys s
              (keys_message S W G (record { public_key = key; relin_keys = relin }))
            ≡ ok s')
          × (s'.sent ≡ sent_after s relin)
    unfolding take_keys take_public_key take_eval_key load_public_key load_eval_key keys_message
        sent_after send_inference_shape write_message
    take_keys-sent s key none e1 e2 hk hr =
        let s1 : Server D Bytes = record s {
          public_key = some key;
          client_public_key_set = true;
        } in
        (s1, rw (hk) (ap ok (ask_for_inputs-unset s1 e2)), refl)
    take_keys-sent s key (some r) e1 e2 hk hr =
        let s2 : Server D Bytes = record s {
          public_key = some key;
          client_public_key_set = true;
          relin_keys = some r;
          client_eval_key_set = true;
        } in
        (
          send_inference_shape dump s2,
          rw (hk, hr r refl) (ap ok (ask_for_inputs-set s2 e1 refl refl)),
          refl,
        )
