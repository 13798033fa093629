-- ===== src/Tcp/Reader/Framing.antt =====
-- A reader takes a stream of packed messages apart.
use he_transformer_research.Base.{
  ℕ, zero, suc, ◌+◌, ◌*◌, ◌^◌, ◌<◌, ◌≤◌, ◌≡◌, refl, sym, ap, ◌∙◌, false, List, [], ◌∷◌, ◌++◌,
  length, take, drop, resize, le→leb, ge→ltb, ltb, All, map, length-append, length-resize,
  length-drop, take-append-drop, length-take, append_nil, append_one, append_assoc, ok, arith,
}
use he_transformer_research.Tcp.Message.{Protobuf, le_bytes, write_at, decode_header, unpack}
use he_transformer_research.Tcp.Message.RoundTrip.{
  frame, IsSized, length-le_bytes, of_le_bytes-le_bytes, take-head, drop-head, write_at-tail,
}
use he_transformer_research.Tcp.Reader.{
  ErrorCode, Pending, Reader, do_read_header, do_read_body, on_header, on_body, read_stream,
}

-- A reader that waits for a header, with the buffer that `do_read_header` sees to.
abbrev pub IsReady : (P : Protobuf) → Reader P → Type 0
IsReady P r = (r.pending ≡ Pending.header) × (8 ≤ length r.read_buffer)

abbrev pub stream_of : (P : Protobuf) → List P.Msg → List ℕ
stream_of P [] = []
stream_of P (m ∷ ms) = frame P m ++ stream_of P ms

module _ (P : Protobuf) (sized : IsSized P) where
  decode-header : (n : ℕ) (tail : List ℕ) → n < 2 ^ 64 → decode_header (le_bytes 8 n ++ tail) ≡ n
  unfolding decode_header
  decode-header n tail small =
      let b = length-le_bytes 8 n in
      let long : ltb (length (le_bytes 8 n ++ tail)) 8 ≡ false =
        ge→ltb _ 8 (omega (arith, length-append (le_bytes 8 n) tail, b)) in
      rw (long, take-head (le_bytes 8 n) tail b) (of_le_bytes-le_bytes 8 n small)

  after_header : ℕ → Reader P → Reader P
  after_header n r = record r {
    read_buffer = resize (8 + n) 0 (le_bytes 8 n ++ drop 8 r.read_buffer);
    pending = Pending.body n;
  }

  on_header-le_bytes :
      (n : ℕ) (r : Reader P)
      → n < 2 ^ 64
      → on_header P ErrorCode.success (le_bytes 8 n) r ≡ ok (after_header n r)
  unfolding on_header do_read_body after_header
  on_header-le_bytes n r small =
      rw (length-le_bytes 8 n, decode-header n (drop 8 r.read_buffer) small)

  after_body : List ℕ → Reader P → Reader P
  after_body s r = record r {
    read_buffer = take 8 r.read_buffer ++ s;
    pending = Pending.header;
    handled = r.handled ++ ((P.parse s).0 ∷ []);
  }

  on_body-bytes :
      (s : List ℕ) (r : Reader P)
      → length r.read_buffer ≡ 8 + length s
      → on_body P ErrorCode.success s r ≡ ok (after_body s r)
  unfolding on_body do_read_header after_body unpack
  on_body-bytes s r h =
      let hd = take 8 r.read_buffer in
      let b : length hd ≡ 8 = omega (arith, length-take 8 r.read_buffer) in
      let d : length (drop 8 r.read_buffer) ≡ length s =
        omega (arith, length-drop 8 r.read_buffer) in
      let filled : write_at 8 s r.read_buffer ≡ hd ++ s =
        ap (write_at 8 s) (sym (take-append-drop 8 r.read_buffer))
        ∙ write_at-tail hd (drop 8 r.read_buffer) s b d in
      let n : 8 ≤ length (hd ++ s) = omega (arith, length-append hd s, b) in
      rw (filled, le→leb 8 (length (hd ++ s)) n, ge→ltb (length (hd ++ s)) 8 n, drop-head hd s b)

  read_header :
      (k n : ℕ) (tail : List ℕ) (r : Reader P)
      → r.pending ≡ Pending.header
      → n < 2 ^ 64
      → read_stream P (suc k) (le_bytes 8 n ++ tail) r ≡ read_stream P k tail (after_header n r)
  unfolding read_stream after_header
  read_header k n tail r waits small =
      let b = length-le_bytes 8 n in
      let long : ltb (length (le_bytes 8 n ++ tail)) 8 ≡ false =
        ge→ltb _ 8 (omega (arith, length-append (le_bytes 8 n) tail, b)) in
      rw (
        waits,
        long,
        take-head (le_bytes 8 n) tail b,
        drop-head (le_bytes 8 n) tail b,
        on_header-le_bytes n (record r { pending = Pending.header }) small,
      )

  read_body :
      (k : ℕ) (s tail : List ℕ) (r : Reader P)
      → r.pending ≡ Pending.body (length s)
      → length r.read_buffer ≡ 8 + length s
      → read_stream P (suc k) (s ++ tail) r ≡ read_stream P k tail (after_body s r)
  unfolding read_stream after_body
  read_body k s tail r waits h =
      let long : ltb (length (s ++ tail)) (length s) ≡ false =
        ge→ltb _ (length s) (omega (arith, length-append s tail)) in
      rw (
        waits,
        long,
        take-head s tail refl,
        drop-head s tail refl,
        on_body-bytes s (record r { pending = Pending.body (length s) }) h,
      )

  after_frame : P.Msg → Reader P → Reader P
  after_frame m r = after_body (P.serialize m) (after_header (P.byte_size m) r)

  read_frame :
      (k : ℕ) (m : P.Msg) (tail : List ℕ) (r : Reader P)
      → IsReady P r
      → P.byte_size m < 2 ^ 64
      → read_stream P (suc (suc k)) (frame P m ++ tail) r ≡ read_stream P k tail (after_frame m r)
  unfolding after_frame after_header
  read_frame k m tail r ready small =
      let size = P.byte_size m in
      let body = P.serialize m in
      let r1 = after_header size r in
      ap (λ u. read_stream P (suc (suc k)) u r) (append_assoc (le_bytes 8 size) body tail)
      ∙ read_header (suc k) size (body ++ tail) r ready.0 small
      ∙ read_body k body tail r1 (ap Pending.body (sym (sized m)))
          (length-resize (8 + size) 0 _ ∙ ap (λ n. 8 + n) (sym (sized m)))

  after_frame-IsReady : (m : P.Msg) (r : Reader P) → IsReady P r → IsReady P (after_frame m r)
  unfolding after_frame after_body after_header
  after_frame-IsReady m r ready =
      let size = P.byte_size m in
      let old = resize (8 + size) 0 (le_bytes 8 size ++ drop 8 r.read_buffer) in
      let l = length-resize (8 + size) 0 (le_bytes 8 size ++ drop 8 r.read_buffer) in
      (refl, omega (arith, length-append (take 8 old) (P.serialize m), length-take 8 old, l))

idle_stream :
    (P : Protobuf) (k : ℕ) (r : Reader P) → IsReady P r → read_stream P k [] r ≡ ok ([], r)
unfolding read_stream
idle_stream P zero r ready = refl
idle_stream P (suc k) r ready = rw (ready.0)

-- On the packed messages, one after the other, each of less than 2^64 bytes, a reader that waits for
-- a header calls the handler with each message, in order, in two reads for each; then it waits for a
-- header again and nothing of the stream is left. A message has as many bytes as its size says.
pub read_stream-messages :
    (P : Protobuf) (sized : IsSized P) (ms : List P.Msg) (k : ℕ) (r : Reader P)
    → IsReady P r
    → All (λ m. P.byte_size m < 2 ^ 64) ms
    → (r' : Reader P) × (read_stream P (2 * length ms + k) (stream_of P ms) r ≡ ok ([], r'))
      × IsReady P r'
      × (r'.handled ≡ r.handled ++ map (λ m. (P.parse (P.serialize m)).0) ms)
unfolding after_frame after_body after_header
read_stream-messages P sized [] k r ready small =
    (r, idle_stream P (2 * 0 + k) r ready, ready, sym (append_nil r.handled))
read_stream-messages P sized (m ∷ ms) k r ready small =
    let (r', e, ready', h) =
      read_stream-messages P sized ms k (after_frame P sized m r)
        (after_frame-IsReady P sized m r ready) small.1 in
    let fuel : 2 * length (m ∷ ms) + k ≡ suc (suc (2 * length ms + k)) = omega arith in
    let step = read_frame P sized (2 * length ms + k) m (stream_of P ms) r ready small.0 in
    let one = (P.parse (P.serialize m)).0 in
    (
      r',
      ap (λ n. read_stream P n (stream_of P (m ∷ ms)) r) fuel ∙ step ∙ e,
      ready',
      h ∙ append_one r.handled one (map (λ x. (P.parse (P.serialize x)).0) ms),
    )
