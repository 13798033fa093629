-- ===== src/Tests/Messages.antt =====
-- The theorems on messages at concrete messages and runs.
use he_transformer_research.Base.{
  ℕ, ◌+◌, ◌*◌, ◌≤◌, ◌≡◌, refl, true, some, List, [], ◌∷◌, ◌++◌, length, map, ok, arith,
}
use he_transformer_research.Tcp.Message.{
  Protobuf, header_length, le_bytes, encode_header, pack, decode_header, unpack,
}
use he_transformer_research.Tcp.Message.RoundTrip.{frame, pack-decode_roundtrip}
use he_transformer_research.Tcp.Reader.{Pending, Reader, read_stream}
use he_transformer_research.Tcp.Reader.Framing.{IsReady, stream_of, read_stream-messages}
use he_transformer_research.Tcp.Writer.{
  Writer, client_write_message, idle, do_write, session_write_message,
}
use he_transformer_research.Tcp.Writer.Order.Session.{SessionRun, SessionRun-in_order}
use he_transformer_research.Tcp.Writer.Order.{ClientRun, ClientRun-in_order}

-- A message is its bytes.
abbrev plain_bytes : Protobuf
plain_bytes = record {
  Msg = List ℕ;
  byte_size = length;
  serialize = λ m. m;
  parse = λ bytes. (bytes, true);
}

pack-decode_roundtrip_example :
    (b : List ℕ) × (pack plain_bytes (some (1 ∷ 2 ∷ 3 ∷ [])) (9 ∷ []) ≡ ok b)
    × (decode_header b ≡ 3)
    × (length b ≡ header_length + 3)
    × (unpack plain_bytes b ≡ ok (1 ∷ 2 ∷ 3 ∷ [], true))
pack-decode_roundtrip_example =
    pack-decode_roundtrip plain_bytes (λ m. refl) (1 ∷ 2 ∷ 3 ∷ []) (9 ∷ []) (omega arith)

abbrev new_reader : Reader plain_bytes
new_reader = record {
  read_buffer = 0 ∷ 0 ∷ 0 ∷ 0 ∷ 0 ∷ 0 ∷ 0 ∷ 0 ∷ [];
  pending = Pending.header;
  handled = [];
}

abbrev two_messages : List (List ℕ)
two_messages = (1 ∷ 2 ∷ 3 ∷ []) ∷ (4 ∷ []) ∷ []

read_stream-messages_example :
    (r' : Reader plain_bytes) × (read_stream plain_bytes
        (2 * 2 + 5)
        (stream_of plain_bytes two_messages)
        new_reader
      ≡ ok ([], r'))
    × IsReady plain_bytes r'
    × (r'.handled ≡ two_messages)
read_stream-messages_example =
    read_stream-messages plain_bytes (λ m. refl) two_messages 5 new_reader (refl, omega arith)
      (omega arith, (omega arith, tt))

-- Two messages are written before the io_context makes the first call.
abbrev queued : Writer plain_bytes
queued =
    client_write_message plain_bytes (some (4 ∷ []))
      (client_write_message plain_bytes (some (1 ∷ 2 ∷ [])) (idle plain_bytes))

two_writes : ClientRun plain_bytes ((1 ∷ 2 ∷ []) ∷ (4 ∷ []) ∷ []) queued
two_writes = ClientRun.write (4 ∷ []) (ClientRun.write (1 ∷ 2 ∷ []) ClientRun.start)

ClientRun-in_order_example :
    (delivered rest : List (List ℕ)) × ((1 ∷ 2 ∷ []) ∷ (4 ∷ []) ∷ [] ≡ delivered ++ rest)
    × (queued.sent ≡ map (frame plain_bytes) delivered)
    × (queued.message_queue ≡ map some rest)
    × (queued.posted + queued.outstanding ≤ 1)
    × (queued.posted + queued.outstanding ≤ length rest)
ClientRun-in_order_example = ClientRun-in_order plain_bytes (λ m. refl) two_writes

-- A session sends the first of two messages while it writes them.
abbrev session_queued : Writer plain_bytes
session_queued = record {
  message_queue = some (1 ∷ 2 ∷ []) ∷ some (4 ∷ []) ∷ [];
  write_buffer = frame plain_bytes (1 ∷ 2 ∷ []);
  posted = 0;
  outstanding = 1;
  sent = [];
}

abbrev session_one : Writer plain_bytes
session_one = record session_queued { message_queue = some (1 ∷ 2 ∷ []) ∷ [] }

session_writes : SessionRun plain_bytes ((1 ∷ 2 ∷ []) ∷ (4 ∷ []) ∷ []) session_queued
unfolding session_write_message do_write idle pack encode_header le_bytes
session_writes =
    SessionRun.write {w = session_one} (4 ∷ []) refl
      (SessionRun.write {w = idle plain_bytes} (1 ∷ 2 ∷ []) refl SessionRun.start)

SessionRun-in_order_example :
    (delivered rest : List (List ℕ)) × ((1 ∷ 2 ∷ []) ∷ (4 ∷ []) ∷ [] ≡ delivered ++ rest)
    × (session_queued.sent ≡ map (frame plain_bytes) delivered)
    × (session_queued.message_queue ≡ map some rest)
    × (session_queued.posted + session_queued.outstanding ≤ 1)
    × (session_queued.posted + session_queued.outstanding ≤ length rest)
SessionRun-in_order_example = SessionRun-in_order plain_bytes (λ m. refl) session_writes
