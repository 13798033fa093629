-- ===== src/Tcp/Message.antt =====
-- The messages between client and server: `TCPMessage` of src/tcp/tcp_message.hpp and
-- src/tcp/tcp_message.cpp. A buffer is a list of bytes; `size_t` has 8 bytes, the lowest first, as
-- on the machines that the program is built for. The protocol buffers are a parameter.
pub mod RoundTrip
use he_transformer_research.Base.{
  ℕ, zero, suc, ◌+◌, ◌*◌, ◌/◌, ◌%◌, ◌≡◌, Bool, Option, none, some, List, [], ◌∷◌, ◌++◌, length,
  take, drop, resize, ltb, leb, if◌then◌else◌, Result, ok, err, check_failed, undefined, ◌>>=◌,
  ◌>>◌, require,
}

-- `pb::TCPMessage`: `ByteSize`, `SerializeToArray` and `ParseFromArray`, which clears the message
-- first, so that what it makes depends on the bytes alone.
pub record Protobuf : Type 1 where
  pub Msg : Type 0
  pub byte_size : Msg → ℕ
  pub serialize : Msg → List ℕ
  pub parse : List ℕ → Msg × Bool

abbrev pub header_length : ℕ
header_length = 8

unfoldable pub le_bytes : ℕ → ℕ → List ℕ
le_bytes zero n = []
le_bytes (suc k) n = n % 256 ∷ le_bytes k (n / 256)

unfoldable pub of_le_bytes : List ℕ → ℕ
of_le_bytes [] = 0
of_le_bytes (b ∷ bs) = b + 256 * of_le_bytes bs

-- `bs` is written over the buffer from the index `i`, which with the bytes lies inside it.
abbrev pub write_at : ℕ → List ℕ → List ℕ → List ℕ
write_at i bs buffer = take i buffer ++ bs ++ drop (i + length bs) buffer

unfoldable pub encode_header : List ℕ → ℕ → Result (List ℕ)
encode_header buffer size = do
  require (leb header_length (length buffer)) check_failed
  ok (write_at 0 (le_bytes header_length size) buffer)

unfoldable pub decode_header : List ℕ → ℕ
decode_header buffer =
    if ltb (length buffer) header_length then 0 else of_le_bytes (take header_length buffer)

module _ (P : Protobuf) where
  open P use {Msg, byte_size, serialize, parse}

  -- A message is a shared pointer, which may be null; the buffer's former bytes stay where nothing
  -- is written.
  unfoldable pub pack : Option Msg → List ℕ → Result (List ℕ)
  pack none buffer = err check_failed
  pack (some m) buffer = do
    headed ← encode_header (resize (header_length + byte_size m) 0 buffer) (byte_size m)
    ok (write_at header_length (serialize m) headed)

  -- A buffer shorter than the header makes `buffer.size() - header_length` wrap around.
  unfoldable pub unpack : List ℕ → Result (Msg × Bool)
  unpack buffer = do
    require (leb header_length (length buffer)) undefined
    ok (parse (drop header_length buffer))
