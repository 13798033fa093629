-- ===== src/Tcp/Writer.antt =====
-- How `TCPClient` and `TCPSession` write: `write_message`, `do_write` and its completion handler in
-- src/tcp/tcp_client.cpp and src/tcp/tcp_session.cpp. The client posts its first `do_write` to the
-- io_context, the session calls it at once; then each write starts the next.
pub mod Order
use he_transformer_research.Base.{
  ℕ, zero, suc, Bool, true, false, Option, none, some, List, [], ◌∷◌, ◌++◌, if◌then◌else◌, Result,
  ok, err, check_failed, undefined, ◌>>=◌, ◌>>◌, require,
}
use he_transformer_research.Tcp.Message.{Protobuf, pack}
use he_transformer_research.Tcp.Reader.{ErrorCode}

abbrev is_empty : {A : Type 0} → List A → Bool
is_empty [] = true
is_empty (x ∷ xs) = false

abbrev pop_front : {A : Type 0} → List A → List A
pop_front [] = []
pop_front (x ∷ xs) = xs

module _ (P : Protobuf) where
  open P use {Msg}

  -- `posted` counts the calls of `do_write` that the io_context has to make, `outstanding` the
  -- writes that have been started and have not completed, and `sent` is what writes have put on the
  -- socket.
  pub record Writer : Type 0 where
    pub message_queue : List (Option Msg)
    pub write_buffer : List ℕ
    pub posted : ℕ
    pub outstanding : ℕ
    pub sent : List (List ℕ)

  unfoldable pub idle : Writer
  idle = record { message_queue = []; write_buffer = []; posted = 0; outstanding = 0; sent = [] }

  -- `do_write`, up to the start of the asynchronous write.
  unfoldable pub do_write : Writer → Result Writer
  do_write w = elim w.message_queue [
    | [] ↦ err undefined
    | message ∷ rest ↦ (do
      buffer ← pack P message w.write_buffer
      ok (record w { write_buffer = buffer; outstanding = suc w.outstanding }))
  ]

  unfoldable pub client_write_message : Option Msg → Writer → Writer
  client_write_message message w =
      let queued = w.message_queue ++ (message ∷ []) in
      if is_empty w.message_queue
      then record w { message_queue = queued; posted = suc w.posted }
      else record w { message_queue = queued }

  -- The io_context makes a call that was posted.
  unfoldable pub client_run_posted : Writer → Result Writer
  client_run_posted w = elim w.posted [ zero ↦ ok w | suc n ↦ do_write (record w { posted = n }) ]

  unfoldable pub session_write_message : Option Msg → Writer → Result Writer
  session_write_message message w =
      let queued = record w { message_queue = w.message_queue ++ (message ∷ []) } in
      if is_empty w.message_queue then do_write queued else ok queued

  -- The write has put its bytes on the socket: the next one starts, if there is one.
  abbrev on_success : Writer → Result Writer
  on_success w =
      let popped = record w {
        message_queue = pop_front w.message_queue;
        sent = w.sent ++ (w.write_buffer ∷ []);
      } in
      if is_empty (pop_front w.message_queue) then ok popped else do_write popped

  abbrev completed : Writer → Writer
  completed w = record w { outstanding = elim w.outstanding [ zero ↦ zero | suc n ↦ n ] }

  -- The completion handler of the client's write: an error is only logged.
  unfoldable pub client_on_write : ErrorCode → Writer → Result Writer
  client_on_write ec w = elim ec [
    | ErrorCode.success ↦ on_success (completed w)
    | _ ↦ ok (completed w)
  ]

  unfoldable pub session_on_write : ErrorCode → Writer → Result Writer
  session_on_write ec w = elim ec [
    | ErrorCode.success ↦ on_success (completed w)
    | _ ↦ err check_failed
  ]
