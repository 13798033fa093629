-- ===== src/Tcp/Writer/Order/Session.antt =====
-- The session's writes, which start at once and whose errors are thrown, keep the same order.
use he_transformer_research.Base.{
  ℕ, ◌+◌, ◌≤◌, ◌<◌, ◌≡◌, refl, sym, ap, ◌∙◌, some, List, [], ◌∷◌, ◌++◌, length, map, ok,
  append_assoc,
}
use he_transformer_research.Tcp.Message.{Protobuf}
use he_transformer_research.Tcp.Message.RoundTrip.{frame, IsSized, pack-frame}
use he_transformer_research.Tcp.Reader.{ErrorCode}
use he_transformer_research.Tcp.Writer.{
  Writer, idle, do_write, session_write_message, session_on_write, client_on_write,
}
use he_transformer_research.Tcp.Writer.Order.{
  Stage, quiet_state, busy_state, Ordered, map-snoc, Ordered-complete, in_order,
}

-- The events of a session that does not throw: a message is written, and an outstanding write completes.
pub data SessionRun (P : Protobuf) : List P.Msg → Writer P → Type 0 where
  start : SessionRun P [] (idle P)
  write :
      {ms : List P.Msg} {w w' : Writer P} (m : P.Msg)
      → session_write_message P (some m) w ≡ ok w'
      → SessionRun P ms w
      → SessionRun P (ms ++ (m ∷ [])) w'
  complete :
      {ms : List P.Msg} {w w' : Writer P} (ec : ErrorCode)
      → 0 < w.outstanding
      → session_on_write P ec w ≡ ok w'
      → SessionRun P ms w
      → SessionRun P ms w'

module _ (P : Protobuf) (sized : IsSized P) where
  ok-injective : {A : Type 0} {a b : A} → ok a ≡ ok b → b ≡ a
  ok-injective e = cc

  session_write-quiet :
      (x : P.Msg) (d : List P.Msg) (b : List ℕ)
      → session_write_message P (some x) (quiet_state P sized d b)
        ≡ ok (busy_state P sized Stage.writing d x [] b)
  unfolding session_write_message do_write quiet_state busy_state
  session_write-quiet x d b = rw (pack-frame P sized x b)

  session_write-busy :
      (x : P.Msg) (s : Stage) (d : List P.Msg) (m : P.Msg) (rest : List P.Msg) (b : List ℕ)
      → session_write_message P (some x) (busy_state P sized s d m rest b)
        ≡ ok (busy_state P sized s d m (rest ++ (x ∷ [])) b)
  unfolding session_write_message busy_state
  session_write-busy x s d m rest b = rw (map-snoc P sized rest x)

  Ordered-session_write_message :
      {ms : List P.Msg} {w w' : Writer P} (x : P.Msg)
      → session_write_message P (some x) w ≡ ok w'
      → Ordered P sized ms w
      → Ordered P sized (ms ++ (x ∷ [])) w'
  Ordered-session_write_message x r (Ordered.quiet d b e h) =
      Ordered.busy Stage.writing d x [] b (ap (λ l. l ++ (x ∷ [])) e) (
        ok-injective
          (sym (session_write-quiet x d b) ∙ ap (session_write_message P (some x)) (sym h) ∙ r))
  Ordered-session_write_message x r (Ordered.busy s d m rest b e h) =
      Ordered.busy s d m (rest ++ (x ∷ [])) b
        (ap (λ l. l ++ (x ∷ [])) e ∙ append_assoc d (m ∷ rest) (x ∷ []))
        (ok-injective (
          sym (session_write-busy x s d m rest b)
          ∙ ap (session_write_message P (some x)) (sym h)
          ∙ r))

  -- A completion without an error does what the client's does, and one with an error throws.
  session_complete :
      {ms : List P.Msg} {w w' : Writer P} (ec : ErrorCode)
      → 0 < w.outstanding
      → session_on_write P ec w ≡ ok w'
      → Ordered P sized ms w
      → Ordered P sized ms w'
  unfolding session_on_write client_on_write
  session_complete ErrorCode.success p r o = Ordered-complete P sized ErrorCode.success p r o
  session_complete ErrorCode.end_of_file p r o = absurd cc
  session_complete ErrorCode.other_error p r o = absurd cc

  SessionRun-Ordered : {ms : List P.Msg} {w : Writer P} → SessionRun P ms w → Ordered P sized ms w
  unfolding quiet_state idle
  SessionRun-Ordered SessionRun.start = Ordered.quiet [] [] refl refl
  SessionRun-Ordered (SessionRun.write m r s) =
      Ordered-session_write_message m r (SessionRun-Ordered s)
  SessionRun-Ordered (SessionRun.complete ec p r s) = session_complete ec p r (SessionRun-Ordered s)

-- Where a message has as many bytes as its size says: along every run of a session that does not
-- throw, the messages written so far are those whose
-- frames have been sent, in order and each once, followed by those in the queue, and at most one
-- write is outstanding, none when the queue is empty.
pub SessionRun-in_order :
    (P : Protobuf) (sized : IsSized P) {ms : List P.Msg} {w : Writer P}
    → SessionRun P ms w
    → (delivered rest : List P.Msg) × (ms ≡ delivered ++ rest)
      × (w.sent ≡ map (frame P) delivered)
      × (w.message_queue ≡ map some rest)
      × (w.posted + w.outstanding ≤ 1)
      × (w.posted + w.outstanding ≤ length rest)
SessionRun-in_order P sized s = in_order P sized (SessionRun-Ordered P sized s)
