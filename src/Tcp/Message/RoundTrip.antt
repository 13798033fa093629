-- ===== src/Tcp/Message/RoundTrip.antt =====
-- A message that `pack` writes is the message that `decode_header` and `unpack` read.
use he_transformer_research.Base.{
  ℕ, zero, suc, ◌+◌, ◌/◌, ◌^◌, ◌<◌, ◌≤◌, ◌≡◌, refl, sym, ap, ◌∙◌, some, List, [], ◌∷◌, ◌++◌, length,
  take, drop, resize, le→leb, ge→ltb, length-append, length-resize, length-drop, take-append,
  drop-append, append_nil, ok, arith,
}
use he_transformer_research.Tcp.Message.{
  Protobuf, header_length, le_bytes, of_le_bytes, write_at, encode_header, decode_header, pack,
  unpack,
}

pub length-le_bytes : (k n : ℕ) → length (le_bytes k n) ≡ k
unfolding le_bytes
length-le_bytes zero n = refl
length-le_bytes (suc k) n = ap suc (length-le_bytes k (n / 256))

-- Little-endian bytes are read back, for a number that fits in them.
pub of_le_bytes-le_bytes : (k n : ℕ) → n < 256 ^ k → of_le_bytes (le_bytes k n) ≡ n
unfolding le_bytes of_le_bytes
of_le_bytes-le_bytes zero n h = omega arith
of_le_bytes-le_bytes (suc k) n h = omega (arith, of_le_bytes-le_bytes k (n / 256) (omega arith))

-- The header, and the body, of a buffer that `pack` makes.
abbrev pub frame : (P : Protobuf) → P.Msg → List ℕ
frame P m = le_bytes header_length (P.byte_size m) ++ P.serialize m

abbrev pub IsSized : (P : Protobuf) → Type 0
IsSized P = (m : P.Msg) → length (P.serialize m) ≡ P.byte_size m

drop-all : (n : ℕ) (xs : List ℕ) → length xs ≤ n → drop n xs ≡ []
drop-all zero [] h = refl
drop-all zero (x ∷ xs) h = absurd (omega arith)
drop-all (suc n) [] h = refl
drop-all (suc n) (x ∷ xs) h = drop-all n xs (omega arith)

pub take-head : (hd s : List ℕ) {n : ℕ} → length hd ≡ n → take n (hd ++ s) ≡ hd
take-head hd s e = ap (λ k. take k (hd ++ s)) (sym e) ∙ take-append hd s

pub drop-head : (hd s : List ℕ) {n : ℕ} → length hd ≡ n → drop n (hd ++ s) ≡ s
drop-head hd s e = ap (λ k. drop k (hd ++ s)) (sym e) ∙ drop-append hd s

drop-past : (hd rest : List ℕ) (n k : ℕ) → length hd ≡ n → drop (n + k) (hd ++ rest) ≡ drop k rest
drop-past [] rest n k e = let z : n + k ≡ k = omega arith in ap (λ j. drop j rest) z
drop-past (x ∷ hd) rest n k e =
    let z : n + k ≡ suc (length hd + k) = omega arith in
    ap (λ j. drop j (x ∷ hd ++ rest)) z ∙ drop-past hd rest (length hd) k refl

pub write_at-tail :
    (hd rest s : List ℕ)
    → length hd ≡ 8
    → length rest ≡ length s
    → write_at 8 s (hd ++ rest) ≡ hd ++ s
write_at-tail hd rest s p q =
    let t : drop (8 + length s) (hd ++ rest) ≡ [] =
      drop-past hd rest 8 (length s) p ∙ drop-all (length s) rest (omega arith) in
    rw (write_at, t, take-head hd rest p) (append_nil (hd ++ s))

-- Whatever the buffer held, `pack` leaves the size in eight bytes and then the bytes of the message.
pub pack-frame :
    (P : Protobuf) (sized : IsSized P) (m : P.Msg) (buffer : List ℕ)
    → pack P (some m) buffer ≡ ok (frame P m)
unfolding pack encode_header
pack-frame P sized m buffer =
    let size = P.byte_size m in
    let old = resize (8 + size) 0 buffer in
    let n = length-resize (8 + size) 0 buffer in
    let b = length-le_bytes 8 size in
    let d : length (drop 8 old) ≡ length (P.serialize m) =
      omega (arith, n, length-drop 8 old, sized m) in
    rw (
      le→leb 8 (length old) (omega (arith, n)),
      b,
      write_at-tail (le_bytes 8 size) (drop 8 old) (P.serialize m) b d,
    )

-- A message of less than 2^64 bytes, as many as its size says, that is packed into any buffer is found again: the header says
-- the length of the body, and `unpack` parses the bytes that were serialized.
pub pack-decode_roundtrip :
    (P : Protobuf) (sized : IsSized P) (m : P.Msg) (buffer : List ℕ)
    → P.byte_size m < 2 ^ 64
    → (b : List ℕ) × (pack P (some m) buffer ≡ ok b)
      × (decode_header b ≡ P.byte_size m)
      × (length b ≡ header_length + P.byte_size m)
      × (unpack P b ≡ ok (P.parse (P.serialize m)))
unfolding decode_header unpack
pack-decode_roundtrip P sized m buffer small =
    let size = P.byte_size m in
    let b = length-le_bytes 8 size in
    let n : length (frame P m) ≡ 8 + size =
      omega (arith, length-append (le_bytes 8 size) (P.serialize m), b, sized m) in
    let short : decode_header (frame P m) ≡ of_le_bytes (take 8 (frame P m)) =
      rw (ge→ltb (length (frame P m)) 8 (omega (arith, n))) in
    let long : unpack P (frame P m) ≡ ok (P.parse (drop 8 (frame P m))) =
      rw (le→leb 8 (length (frame P m)) (omega (arith, n))) in
    (
      frame P m,
      pack-frame P sized m buffer,
      short
          ∙ ap of_le_bytes (take-head (le_bytes 8 size) (P.serialize m) b)
          ∙ of_le_bytes-le_bytes 8 size small,
      n,
      long ∙ ap (λ x. ok (P.parse x)) (drop-head (le_bytes 8 size) (P.serialize m) b),
    )
