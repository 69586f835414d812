-- ===== src/Network/Frame.antt =====
-- network/binary_protocol.go: the binary frame and its checksum.
pub mod RoundTrip
use Prim.Native.Nat.{bit_xor}
use aegis_log.Common.{
  ℕ, zero, suc, ◌-◌, ◌/◌, ◌%◌, ◌≡◌, refl, List, [], ◌∷◌, ◌++◌, ltb, ◌==◌, if◌then◌else◌, length,
  take, drop, u32, be32, be64, read_be, Result, ok, err, ◌>>=◌,
}

-- The errors of the package, and those of `io.ReadFull`.
pub data FrameError : Type 0 where
  invalid_magic crc32_mismatch payload_too_large eof unexpected_eof : FrameError

abbrev pub magic_byte : ℕ
magic_byte = 0x4B

abbrev pub header_size : ℕ
header_size = 17

abbrev pub max_payload_size : ℕ
max_payload_size = 33554432

pub record Frame : Type 0 where
  pub magic : ℕ
  pub length : ℕ
  pub offset : ℕ
  pub crc32 : ℕ
  pub payload : List ℕ

-- `hash/crc32`, the IEEE polynomial reflected, one bit at a time.
crc_bits : ℕ → ℕ → ℕ
crc_bits zero c = c
crc_bits (suc n) c = crc_bits n (if c % 2 == 1 then bit_xor (c / 2) 0xEDB88320 else c / 2)

crc_bytes : ℕ → List ℕ → ℕ
unfolding crc_bits
crc_bytes c [] = c
crc_bytes c (b ∷ bs) = crc_bytes (crc_bits 8 (bit_xor c b)) bs

unfoldable pub checksum_ieee : List ℕ → ℕ
unfolding crc_bytes
checksum_ieee bs = u32 (bit_xor (crc_bytes 0xFFFFFFFF bs) 0xFFFFFFFF)

-- The slice `buf[a:b]`.
abbrev slice : ℕ → ℕ → List ℕ → List ℕ
slice a b xs = take (b - a) (drop a xs)

-- `buf` is as long as the header and `payload_len` bytes, so `copy` takes that many.
unfoldable pub encode_frame : ℕ → List ℕ → Result FrameError (List ℕ)
encode_frame offset payload =
    let payload_len = u32 (length payload) in
    if ltb max_payload_size payload_len
    then err payload_too_large
    else ok (
        magic_byte
        ∷ (be32 payload_len
            ++ (be64 offset ++ (be32 (checksum_ieee payload) ++ take payload_len payload))))

-- `io.ReadFull` over what the reader has left: the bytes read, and what is left then.
unfoldable pub read_full : ℕ → List ℕ → Result FrameError (List ℕ × List ℕ)
read_full n r =
    if n == 0
    then ok ([], r)
    else if length r == 0
    then err eof
    else if ltb (length r) n
    then err unexpected_eof
    else ok (take n r, drop n r)

-- The part of `DecodeFrame` behind the header.
decode_body : List ℕ → List ℕ → Result FrameError (Frame × List ℕ)
decode_body header r =
    let magic = read_be 0 (slice 0 1 header) in
    let len = read_be 0 (slice 1 5 header) in
    let offset = read_be 0 (slice 5 13 header) in
    let expected = read_be 0 (slice 13 17 header) in
    if magic == magic_byte
    then (if ltb max_payload_size len
        then err payload_too_large
        else (read_full len r >>= λ (payload, rest).
            if checksum_ieee payload == expected
            then ok (
              record {
                magic = magic;
                length = len;
                offset = offset;
                crc32 = expected;
                payload = payload;
              },
              rest,
            )
            else err crc32_mismatch))
    else err invalid_magic

unfoldable pub decode_frame : List ℕ → Result FrameError (Frame × List ℕ)
unfolding decode_body
decode_frame r = do (header, rest) ← read_full header_size r; decode_body header rest

check_value :
    checksum_ieee (0x31 ∷ 0x32 ∷ 0x33 ∷ 0x34 ∷ 0x35 ∷ 0x36 ∷ 0x37 ∷ 0x38 ∷ 0x39 ∷ []) ≡ 0xCBF43926
unfolding checksum_ieee
check_value = refl
