-- ===== src/Storage/Segment/Frames.antt =====
-- The frames that a segment of storage/wal_segment.go holds.
use mathlib.Core.List.{append_assoc, append-nil}
use aegis_log.Common.{
  ℕ, suc, ◌+◌, ◌≤◌, ◌≡◌, refl, ap, arith, some, List, [], ◌∷◌, ◌++◌, length, length-append,
  get_elem?, IsU64, ok,
}
use aegis_log.Network.Frame.{
  encode_frame, decode_frame, max_payload_size, magic_byte, checksum_ieee,
}
use aegis_log.Network.Frame.RoundTrip.{encode_frame-eq, header, frame_of, decode-encode}

-- A payload that a frame can carry.
abbrev pub IsSmall : List ℕ → Type 0
IsSmall p = length p ≤ max_payload_size

-- The bytes of one frame.
unfoldable pub frame_bytes : ℕ → List ℕ → List ℕ
frame_bytes offset p = header (length p) offset (checksum_ieee p) ++ p

-- The frames of payloads with offsets from `offset` on.
abbrev pub wire : ℕ → List (List ℕ) → List ℕ
wire offset [] = []
wire offset (p ∷ ps) = frame_bytes offset p ++ wire (offset + 1) ps

pub length-frame_bytes : (offset : ℕ) (p : List ℕ) → length (frame_bytes offset p) ≡ 17 + length p
unfolding frame_bytes
length-frame_bytes offset p = omega arith

pub frame_bytes-first :
    (offset : ℕ) (p rest : List ℕ) → get_elem? (frame_bytes offset p ++ rest) 0 ≡ some magic_byte
unfolding frame_bytes
frame_bytes-first offset p rest = refl

pub encode_frame_bytes :
    (offset : ℕ) (p : List ℕ) → IsSmall p → encode_frame offset p ≡ ok (frame_bytes offset p)
unfolding frame_bytes
encode_frame_bytes offset p h = encode_frame-eq offset p h

pub decode_frame_bytes :
    (offset : ℕ) (p rest : List ℕ)
    → IsSmall p
    → IsU64 offset
    → decode_frame (frame_bytes offset p ++ rest) ≡ ok (frame_of offset p, rest)
decode_frame_bytes offset p rest h ho =
    decode-encode offset p rest (frame_bytes offset p) h ho (encode_frame_bytes offset p h)

pub wire-append :
    (offset : ℕ) (ps : List (List ℕ)) (p : List ℕ)
    → wire offset (ps ++ (p ∷ [])) ≡ wire offset ps ++ frame_bytes (offset + length ps) p
wire-append offset [] p =
    let e : offset + 0 ≡ offset = omega arith in rw e (append-nil (frame_bytes offset p))
wire-append offset (q ∷ ps) p =
    let e : offset + suc (length ps) ≡ (offset + 1) + length ps = omega arith in
    rw
      (
        e,
        append_assoc (frame_bytes offset q) (wire (offset + 1) ps)
            (frame_bytes ((offset + 1) + length ps) p),
      )
      (ap (λ t. frame_bytes offset q ++ t) (wire-append (offset + 1) ps p))

-- The frames of two runs of payloads, one behind the other.
pub wire-append_all :
    (offset : ℕ) (ps qs : List (List ℕ))
    → wire offset (ps ++ qs) ≡ wire offset ps ++ wire (offset + length ps) qs
wire-append_all offset [] qs = let e : offset + 0 ≡ offset = omega arith in rw e refl
wire-append_all offset (p ∷ ps) qs =
    let e : offset + suc (length ps) ≡ (offset + 1) + length ps = omega arith in
    rw
      (
        e,
        append_assoc (frame_bytes offset p) (wire (offset + 1) ps)
            (wire ((offset + 1) + length ps) qs),
      )
      (ap (λ t. frame_bytes offset p ++ t) (wire-append_all (offset + 1) ps qs))

pub length-wire : (next : ℕ) (ps : List (List ℕ)) → length ps ≤ length (wire next ps)
length-wire next [] = omega arith
length-wire next (p ∷ ps) = omega (
  arith,
  length-wire (next + 1) ps,
  length-append (frame_bytes next p) (wire (next + 1) ps),
  length-frame_bytes next p,
)
