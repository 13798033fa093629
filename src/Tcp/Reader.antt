-- ===== src/Tcp/Reader.antt =====
-- How `TCPClient` and `TCPSession` read: `do_read_header` and `do_read_body` of
-- src/tcp/tcp_client.cpp and src/tcp/tcp_session.cpp, whose text is the same but for a shared
-- pointer to the session. `boost::asio::async_read` of n bytes completes with n bytes of the stream
-- or with an error code; the message handler is a list of the messages that it was called with.
pub mod Framing
use he_transformer_research.Base.{
  ℕ, zero, suc, ◌+◌, Bool, true, false, not, ◌&&◌, ◌||◌, List, [], ◌∷◌, ◌++◌, length, take, drop,
  resize, ltb, leb, if◌then◌else◌, Result, ok, err, check_failed, ◌>>=◌, ◌>>◌, require,
}
use he_transformer_research.Tcp.Message.{Protobuf, header_length, write_at, decode_header, unpack}

-- `ec`: none, the expected teardown message "End of file", or another.
pub data ErrorCode : Type 0 where
  success end_of_file other_error : ErrorCode

-- The outstanding read: of a header, of a body with so many bytes, or none after a teardown.
pub data Pending : Type 0 where
  header : Pending
  body : ℕ → Pending
  nothing : Pending

abbrev is_expected : ErrorCode → Bool
is_expected success = true
is_expected end_of_file = true
is_expected other_error = false

module _ (P : Protobuf) where
  open P use {Msg}

  pub record Reader : Type 0 where
    pub read_buffer : List ℕ
    pub pending : Pending
    pub handled : List Msg

  unfoldable pub do_read_header : Reader → Reader
  do_read_header r = record r {
    read_buffer =
        if ltb (length r.read_buffer) header_length
        then resize header_length 0 r.read_buffer
        else r.read_buffer;
    pending = header;
  }

  unfoldable pub do_read_body : ℕ → Reader → Reader
  do_read_body body_length r = record r {
    read_buffer = resize (header_length + body_length) 0 r.read_buffer;
    pending = body body_length;
  }

  -- The completion of the read of a header, with the eight bytes that it put into the buffer.
  unfoldable pub on_header : ErrorCode → List ℕ → Reader → Result Reader
  on_header ec bytes r = do
    require (is_expected ec) check_failed
    let filled = write_at 0 bytes r.read_buffer
    ok (elim ec [
      | success ↦ do_read_body (decode_header filled) (record r { read_buffer = filled })
      | _ ↦ record r { pending = nothing }
    ])

  -- The completion of the read of a body: what `unpack` returns is not looked at.
  unfoldable pub on_body : ErrorCode → List ℕ → Reader → Result Reader
  on_body ec bytes r = do
    require (is_expected ec) check_failed
    let filled = write_at header_length bytes r.read_buffer
    elim ec [
      | success ↦ (do
        parsed ← unpack P filled
        let (m, fine) = parsed
        ok (do_read_header (record r { read_buffer = filled; handled = r.handled ++ (m ∷ []) })))
      | _ ↦ ok (record r { pending = nothing })
    ]

  -- The reads that complete on a stream, at most so many, while the stream has the bytes.
  unfoldable pub read_stream : ℕ → List ℕ → Reader → Result (List ℕ × Reader)
  read_stream zero stream r = ok (stream, r)
  read_stream (suc fuel) stream r =
      let again =
        λ (k : ℕ) (next : Result Reader). next >>= λ s. read_stream fuel (drop k stream) s in
      elim r.pending [
        | nothing ↦ ok (stream, r)
        | header ↦
            (if ltb (length stream) header_length
              then ok (stream, r)
              else again header_length (on_header success (take header_length stream) r))
        | body n ↦
            (if ltb (length stream) n
              then ok (stream, r)
              else again n (on_body success (take n stream) r))
      ]
