-- ===== src/Client/Handlers/Results.antt =====
-- A result that comes in one message ends the client's work with its values.
use Prim.Native.String.{String}
use he_transformer_research.Base.{
  ℕ, ◌*◌, ◌<◌, ◌≡◌, refl, ap, ◌∙◌, Bool, true, none, some, List, [], ◌∷◌, map, length, replicate,
  length-replicate, length-map, ◌==◌, ==_refl, if◌then◌else◌, ok, arith,
}
use he_transformer_research.HeUtil.{ElementType, PbElementType, pb_type_to_type, type_to_double}
use he_transformer_research.Machine.{Mem}
use he_transformer_research.Machine.{◌>>=◌ as ◌>>=M◌, ◌>>◌ as ◌>>M◌}
use he_transformer_research.Tensor.{get_batch_size, done_loading}
use he_transformer_research.Tensor.Bounds.{batch_size-unpacked}
use he_transformer_research.Tensor.Io.{write_value}
use he_transformer_research.Tensor.Io.Plain.{read-values}
use he_transformer_research.Tensor.Load.Plain.{
  loaded_value, sent_tensor, loaded_tensor, load_new_tensor-values,
}
use he_transformer_research.Protocol.{response, bare}
use he_transformer_research.Client.{Keys, close_connection}
use he_transformer_research.Client.Environment.{Environment}
use he_transformer_research.Client.Handlers.{
  State, Message, one_tensor, has_context, to_doubles, take_results, handle_result,
}

module _ (E : Environment) where
  open E use {backend, ngraph}
  open backend use {D, Ct, zero_d}

  to_doubles-values :
      (stored : D → D) (element_type : ElementType) (vs : List D) (m : Mem D Ct)
      → ((v : D) → type_to_double element_type v ≡ ok v)
      → to_doubles E element_type (map stored vs) m ≡ ok (map stored vs, m)
  unfolding to_doubles
  to_doubles-values stored element_type [] m d = refl
  to_doubles-values stored element_type (v ∷ vs) m d =
      let ih = to_doubles-values stored element_type vs m d in simp (d (stored v), ◌>>=M◌, ih)

  abbrev pub result_message : String → PbElementType → List ℕ → ℕ → Bool → List D → Message E
  result_message name pb_type shape offset cp vs = record (bare response) {
    he_tensors = sent_tensor backend ngraph name pb_type shape offset cp vs ∷ [];
  }

  abbrev pub finished : State E → String → PbElementType → List ℕ → Bool → List D → List D → State E
  finished c name pb_type shape cp vs results = record c {
    result_tensor = some (loaded_tensor backend ngraph name pb_type shape cp vs);
    results = results;
    is_closed = true;
    is_done = true;
  }

  pub handle_result-values :
      (stored : D → D) (c : State E) (keys : Keys) (name : String) (pb_type : PbElementType)
      (shape : List ℕ) (offset : ℕ) (cp : Bool) (vs : List D) (m : Mem D Ct)
      → c.result_tensor ≡ none
      → c.context ≡ some keys
      → ngraph.shape_size shape ≡ length vs
      → 0 < ngraph.type_size (pb_type_to_type pb_type)
      → ((v : D) → write_value backend ngraph (pb_type_to_type pb_type) v ≡ ok (stored v))
      → ((v : D) → type_to_double (pb_type_to_type pb_type) v ≡ ok v)
      → handle_result E c (result_message name pb_type shape offset cp vs) m
        ≡ ok (finished c name pb_type shape cp vs (map stored vs), m)
  unfolding handle_result one_tensor has_context take_results close_connection done_loading
  handle_result-values stored c keys name pb_type shape offset cp vs m fresh context size sized w
        d =
      let t = loaded_tensor backend ngraph name pb_type shape cp vs in
      let loaded =
        load_new_tensor-values backend ngraph name pb_type shape offset
          c.encryption_params.complex_packing cp vs m size in
      let batch = batch_size-unpacked shape in
      let data_size : length t.m_data * get_batch_size t ≡ length vs =
        ap (λ b. length t.m_data * b) batch
        ∙ omega (arith, length-map vs (loaded_value backend cp)) in
      let all : (length vs == length t.m_data) ≡ true =
        ap (λ n. length vs == n) (length-map vs (loaded_value backend cp)) ∙ ==_refl (length vs) in
      let values =
        read-values backend ngraph stored cp t vs (replicate (length vs) zero_d) m w batch sized
          (omega (arith, size)) refl (length-replicate (length vs) zero_d) in
      let doubles = to_doubles-values stored (pb_type_to_type pb_type) vs m d in
      simp (
        ◌>>=M◌, ◌>>M◌, fresh, has_context, context, loaded, done_loading, all, if◌then◌else◌,
        data_size, values, doubles,
      )
