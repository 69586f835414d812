-- ===== src/Network/Tests.antt =====
-- Runs of network/binary_protocol.go, and the theorems at concrete inputs.
use aegis_log.Common.{ℕ, ◌≡◌, refl, arith, List, [], ◌∷◌, ◌++◌, ok}
use aegis_log.Network.Frame.{encode_frame, decode_frame, checksum_ieee}
use aegis_log.Network.Frame.RoundTrip.{frame_of, decode-encode}

abbrev hello : List ℕ
hello = 0x68 ∷ 0x69 ∷ []

abbrev hello_frame : List ℕ
hello_frame =
    0x4B ∷ 0 ∷ 0 ∷ 0 ∷ 2 ∷ 0 ∷ 0 ∷ 0 ∷ 0 ∷ 0 ∷ 0 ∷ 0 ∷ 7 ∷ 0xD8 ∷ 0x93 ∷ 0x2A ∷ 0xAC ∷ hello

hello_encoded : encode_frame 7 hello ≡ ok hello_frame
unfolding encode_frame checksum_ieee
hello_encoded = refl

decode-encode_example : decode_frame (hello_frame ++ (1 ∷ [])) ≡ ok (frame_of 7 hello, 1 ∷ [])
decode-encode_example =
    decode-encode 7 hello (1 ∷ []) hello_frame (omega arith) (omega arith) hello_encoded
