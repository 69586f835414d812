-- ===== src/Network/Frame/RoundTrip.antt =====
-- `DecodeFrame` against `EncodeFrame` of network/binary_protocol.go.
use aegis_log.Common.{
  ℕ, ◌^◌, ◌≤◌, ◌<◌, ◌≡◌, refl, arith, List, [], ◌∷◌, ◌++◌, length, IsU64, u32, be32, be64,
  read_be-be32, read_be-be64, length-append, take-append_eq, drop-append_eq, take_all, ok,
}
use aegis_log.Network.Frame.{
  Frame, magic_byte, max_payload_size, checksum_ieee, encode_frame, decode_frame, decode_body,
  read_full,
}
use mathlib.Core.List.{append_assoc}

checksum-lt : (bs : List ℕ) → checksum_ieee bs < 2 ^ 32
unfolding checksum_ieee
checksum-lt bs = omega arith

read_full-append : (n : ℕ) (xs ys : List ℕ) → n ≡ length xs → read_full n (xs ++ ys) ≡ ok (xs, ys)
unfolding read_full
read_full-append n [] ys e = ground arith
read_full-append n (x ∷ xs) ys e =
    ground
      (arith, length-append xs ys, take-append_eq n (x ∷ xs) ys e, drop-append_eq n (x ∷ xs) ys e)

-- The header that `EncodeFrame` writes over a payload of `len` bytes with the checksum `crc`.
abbrev pub header : ℕ → ℕ → ℕ → List ℕ
header len offset crc = magic_byte ∷ (be32 len ++ (be64 offset ++ be32 crc))

-- The frame that stands for a message.
unfoldable pub frame_of : ℕ → List ℕ → Frame
frame_of offset payload = record {
  magic = magic_byte;
  length = length payload;
  offset = offset;
  crc32 = checksum_ieee payload;
  payload = payload;
}

-- A payload in range is encoded as its header and its bytes.
pub encode_frame-eq :
    (offset : ℕ) (payload : List ℕ)
    → length payload ≤ max_payload_size
    → encode_frame offset payload
      ≡ ok (header (length payload) offset (checksum_ieee payload) ++ payload)
unfolding encode_frame
encode_frame-eq offset payload h =
    let small : u32 (length payload) ≡ length payload = omega arith in
    rw small (ground (arith, take_all (length payload) payload (omega arith)))

decode_body-header :
    (offset : ℕ) (payload rest : List ℕ)
    → length payload ≤ max_payload_size
    → IsU64 offset
    → decode_body (header (length payload) offset (checksum_ieee payload)) (payload ++ rest)
      ≡ ok (frame_of offset payload, rest)
unfolding decode_body frame_of
decode_body-header offset payload rest h ho = ground (
  arith,
  read_be-be32 (length payload) (omega arith),
  read_be-be64 offset ho,
  read_be-be32 (checksum_ieee payload) (checksum-lt payload),
  read_full-append (length payload) payload rest refl,
)

-- Decoding an encoded message with any bytes behind it gives the message back and leaves those bytes, for a payload of at most 32 MB and a 64-bit offset.
pub decode-encode :
    (offset : ℕ) (payload rest bs : List ℕ)
    → length payload ≤ max_payload_size
    → IsU64 offset
    → encode_frame offset payload ≡ ok bs
    → decode_frame (bs ++ rest) ≡ ok (frame_of offset payload, rest)
unfolding decode_frame
decode-encode offset payload rest bs h ho e =
    let head = header (length payload) offset (checksum_ieee payload) in
    let b : bs ≡ head ++ payload = cc (encode_frame-eq offset payload h, e) in
    rw (b, append_assoc head payload rest, read_full-append 17 head (payload ++ rest) refl)
      (decode_body-header offset payload rest h ho)
