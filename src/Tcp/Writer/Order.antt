-- ===== src/Tcp/Writer/Order.antt =====
-- What is written is sent once and in order, whatever the interleaving of calls and completions.
pub mod Session
use he_transformer_research.Base.{
  ℕ, ◌+◌, ◌≤◌, ◌<◌, ◌≡◌, refl, sym, ap, ◌∙◌, some, List, [], ◌∷◌, ◌++◌, length, map, ok,
  append_assoc, append_nil, arith,
}
use he_transformer_research.Tcp.Message.{Protobuf}
use he_transformer_research.Tcp.Message.RoundTrip.{frame, IsSized, pack-frame}
use he_transformer_research.Tcp.Reader.{ErrorCode}
use he_transformer_research.Tcp.Writer.{
  Writer, idle, do_write, client_write_message, client_run_posted, client_on_write,
}

-- The events of a client: a message is written, the io_context makes a call that was posted, and
-- an outstanding write completes, with or without an error.
pub data ClientRun (P : Protobuf) : List P.Msg → Writer P → Type 0 where
  start : ClientRun P [] (idle P)
  write :
      {ms : List P.Msg} {w : Writer P} (m : P.Msg)
      → ClientRun P ms w
      → ClientRun P (ms ++ (m ∷ [])) (client_write_message P (some m) w)
  run :
      {ms : List P.Msg} {w w' : Writer P}
      → 0 < w.posted
      → client_run_posted P w ≡ ok w'
      → ClientRun P ms w
      → ClientRun P ms w'
  complete :
      {ms : List P.Msg} {w w' : Writer P} (ec : ErrorCode)
      → 0 < w.outstanding
      → client_on_write P ec w ≡ ok w'
      → ClientRun P ms w
      → ClientRun P ms w'

-- The first message in the queue waits for a posted call, is being written, or has failed.
pub data Stage : Type 0 where
  waiting writing failed : Stage

module _ (P : Protobuf) (sized : IsSized P) where
  pub quiet_state : List P.Msg → List ℕ → Writer P
  quiet_state d b = record {
    message_queue = [];
    write_buffer = b;
    posted = 0;
    outstanding = 0;
    sent = map (frame P) d;
  }

  pub busy_state : Stage → List P.Msg → P.Msg → List P.Msg → List ℕ → Writer P
  busy_state s d m rest b = record {
    message_queue = some m ∷ map some rest;
    write_buffer = elim s [ waiting ↦ b | writing ↦ frame P m | failed ↦ b ];
    posted = elim s [ waiting ↦ 1 | writing ↦ 0 | failed ↦ 0 ];
    outstanding = elim s [ waiting ↦ 0 | writing ↦ 1 | failed ↦ 0 ];
    sent = map (frame P) d;
  }

  pub data Ordered (ms : List P.Msg) (w : Writer P) : Type 0 where
    quiet : (d : List P.Msg) (b : List ℕ) → ms ≡ d → w ≡ quiet_state d b → Ordered ms w
    busy :
        (s : Stage) (d : List P.Msg) (m : P.Msg) (rest : List P.Msg) (b : List ℕ)
        → ms ≡ d ++ (m ∷ rest)
        → w ≡ busy_state s d m rest b
        → Ordered ms w

  pub map-snoc :
      (rest : List P.Msg) (x : P.Msg) → map some rest ++ (some x ∷ []) ≡ map some (rest ++ (x ∷ []))
  map-snoc [] x = refl
  map-snoc (r ∷ rest) x = rw (map-snoc rest x)

  frames-snoc :
      (d : List P.Msg) (x : P.Msg)
      → map (frame P) d ++ (frame P x ∷ []) ≡ map (frame P) (d ++ (x ∷ []))
  frames-snoc [] x = refl
  frames-snoc (r ∷ d) x = rw (frames-snoc d x)

  at_most_one :
      (s : Stage)
      → elim s [ waiting ↦ 1 | writing ↦ 0 | failed ↦ 0 ]
          + elim s [ waiting ↦ 0 | writing ↦ 1 | failed ↦ 0 ]
        ≤ 1
  at_most_one waiting = omega arith
  at_most_one writing = omega arith
  at_most_one failed = omega arith

  write-quiet :
      (x : P.Msg) (d : List P.Msg) (b : List ℕ)
      → client_write_message P (some x) (quiet_state d b) ≡ busy_state waiting d x [] b
  unfolding client_write_message quiet_state busy_state
  write-quiet x d b = refl

  write-busy :
      (x : P.Msg) (s : Stage) (d : List P.Msg) (m : P.Msg) (rest : List P.Msg) (b : List ℕ)
      → client_write_message P (some x) (busy_state s d m rest b)
        ≡ busy_state s d m (rest ++ (x ∷ [])) b
  unfolding client_write_message busy_state
  write-busy x s d m rest b = rw (map-snoc rest x)

  run-waiting :
      (d : List P.Msg) (m : P.Msg) (rest : List P.Msg) (b : List ℕ)
      → client_run_posted P (busy_state waiting d m rest b) ≡ ok (busy_state writing d m rest b)
  unfolding client_run_posted do_write busy_state
  run-waiting d m rest b = rw (pack-frame P sized m b)

  complete-last :
      (d : List P.Msg) (m : P.Msg) (b : List ℕ)
      → client_on_write P ErrorCode.success (busy_state writing d m [] b)
        ≡ ok (quiet_state (d ++ (m ∷ [])) (frame P m))
  unfolding client_on_write busy_state quiet_state
  complete-last d m b = rw (frames-snoc d m)

  complete-next :
      (d : List P.Msg) (m n : P.Msg) (rest : List P.Msg) (b : List ℕ)
      → client_on_write P ErrorCode.success (busy_state writing d m (n ∷ rest) b)
        ≡ ok (busy_state writing (d ++ (m ∷ [])) n rest b)
  unfolding client_on_write do_write busy_state
  complete-next d m n rest b = rw (frames-snoc d m, pack-frame P sized n (frame P m))

  ok-injective : {A : Type 0} {a b : A} → ok a ≡ ok b → b ≡ a
  ok-injective e = cc

  Ordered-write :
      {ms : List P.Msg} {w : Writer P} (x : P.Msg)
      → Ordered ms w
      → Ordered (ms ++ (x ∷ [])) (client_write_message P (some x) w)
  Ordered-write x (quiet d b e h) =
      busy waiting d x [] b (ap (λ l. l ++ (x ∷ [])) e)
        (ap (client_write_message P (some x)) h ∙ write-quiet x d b)
  Ordered-write x (busy s d m rest b e h) =
      busy s d m (rest ++ (x ∷ [])) b
        (ap (λ l. l ++ (x ∷ [])) e ∙ append_assoc d (m ∷ rest) (x ∷ []))
        (ap (client_write_message P (some x)) h ∙ write-busy x s d m rest b)

  Ordered-run :
      {ms : List P.Msg} {w w' : Writer P}
      → 0 < w.posted
      → client_run_posted P w ≡ ok w'
      → Ordered ms w
      → Ordered ms w'
  unfolding quiet_state busy_state
  Ordered-run p r (quiet d b e h) = absurd (omega (arith, p, ap (λ w. w.posted) h))
  Ordered-run p r (busy waiting d m rest b e h) =
      busy writing d m rest b e
        (ok-injective (sym (run-waiting d m rest b) ∙ ap (client_run_posted P) (sym h) ∙ r))
  Ordered-run p r (busy writing d m rest b e h) = absurd (omega (arith, p, ap (λ w. w.posted) h))
  Ordered-run p r (busy failed d m rest b e h) = absurd (omega (arith, p, ap (λ w. w.posted) h))

  complete-error :
      (d : List P.Msg) (m : P.Msg) (rest : List P.Msg) (b : List ℕ)
      → (client_on_write P ErrorCode.end_of_file (busy_state writing d m rest b)
          ≡ ok (busy_state failed d m rest (frame P m)))
        × (client_on_write P ErrorCode.other_error (busy_state writing d m rest b)
            ≡ ok (busy_state failed d m rest (frame P m)))
  unfolding client_on_write busy_state
  complete-error d m rest b = (refl, refl)

  pub Ordered-complete :
      {ms : List P.Msg} {w w' : Writer P} (ec : ErrorCode)
      → 0 < w.outstanding
      → client_on_write P ec w ≡ ok w'
      → Ordered ms w
      → Ordered ms w'
  unfolding quiet_state busy_state
  Ordered-complete ec p r (quiet d b e h) = absurd (omega (arith, p, ap (λ w. w.outstanding) h))
  Ordered-complete ec p r (busy waiting d m rest b e h) =
      absurd (omega (arith, p, ap (λ w. w.outstanding) h))
  Ordered-complete ec p r (busy failed d m rest b e h) =
      absurd (omega (arith, p, ap (λ w. w.outstanding) h))
  Ordered-complete ErrorCode.success p r (busy writing d m [] b e h) =
      quiet (d ++ (m ∷ [])) (frame P m) e (
        ok-injective
          (sym (complete-last d m b) ∙ ap (client_on_write P ErrorCode.success) (sym h) ∙ r))
  Ordered-complete ErrorCode.success p r (busy writing d m (n ∷ rest) b e h) =
      busy writing (d ++ (m ∷ [])) n rest b (e ∙ sym (append_assoc d (m ∷ []) (n ∷ rest))) (
        ok-injective
          (sym (complete-next d m n rest b) ∙ ap (client_on_write P ErrorCode.success) (sym h) ∙ r))
  Ordered-complete ErrorCode.end_of_file p r (busy writing d m rest b e h) =
      busy failed d m rest (frame P m) e (
        ok-injective (
          sym (complete-error d m rest b).0
          ∙ ap (client_on_write P ErrorCode.end_of_file) (sym h)
          ∙ r))
  Ordered-complete ErrorCode.other_error p r (busy writing d m rest b e h) =
      busy failed d m rest (frame P m) e (
        ok-injective (
          sym (complete-error d m rest b).1
          ∙ ap (client_on_write P ErrorCode.other_error) (sym h)
          ∙ r))

  ClientRun-Ordered : {ms : List P.Msg} {w : Writer P} → ClientRun P ms w → Ordered ms w
  unfolding quiet_state idle
  ClientRun-Ordered start = quiet [] [] refl refl
  ClientRun-Ordered (write m s) = Ordered-write m (ClientRun-Ordered s)
  ClientRun-Ordered (run p r s) = Ordered-run p r (ClientRun-Ordered s)
  ClientRun-Ordered (complete ec p r s) = Ordered-complete ec p r (ClientRun-Ordered s)

  pub in_order :
      {ms : List P.Msg} {w : Writer P}
      → Ordered ms w
      → (delivered rest : List P.Msg) × (ms ≡ delivered ++ rest)
        × (w.sent ≡ map (frame P) delivered)
        × (w.message_queue ≡ map some rest)
        × (w.posted + w.outstanding ≤ 1)
        × (w.posted + w.outstanding ≤ length rest)
  unfolding quiet_state busy_state
  in_order (quiet d b e h) = (
    d,
    [],
    e ∙ sym (append_nil d),
    ap (λ w. w.sent) h,
    ap (λ w. w.message_queue) h,
    omega (arith, ap (λ w. w.posted) h, ap (λ w. w.outstanding) h),
    omega (arith, ap (λ w. w.posted) h, ap (λ w. w.outstanding) h),
  )
  in_order (busy s d m rest b e h) = (
    d,
    m ∷ rest,
    e,
    ap (λ w. w.sent) h,
    ap (λ w. w.message_queue) h,
    omega (arith, ap (λ w. w.posted + w.outstanding) h, at_most_one s),
    omega (arith, ap (λ w. w.posted + w.outstanding) h, at_most_one s),
  )

-- Where a message has as many bytes as its size says: along every run of a client the messages written so far are those whose frames have been sent, in
-- order and each once, followed by those in the queue, and at most one call of `do_write` is posted
-- or write outstanding, and none when the queue is empty.
pub ClientRun-in_order :
    (P : Protobuf) (sized : IsSized P) {ms : List P.Msg} {w : Writer P}
    → ClientRun P ms w
    → (delivered rest : List P.Msg) × (ms ≡ delivered ++ rest)
      × (w.sent ≡ map (frame P) delivered)
      × (w.message_queue ≡ map some rest)
      × (w.posted + w.outstanding ≤ 1)
      × (w.posted + w.outstanding ≤ length rest)
ClientRun-in_order P sized s = in_order P sized (ClientRun-Ordered P sized s)
