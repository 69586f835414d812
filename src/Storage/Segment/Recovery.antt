-- ===== src/Storage/Segment/Recovery.antt =====
-- `recover` of storage/wal_segment.go on the bytes that a segment left.
use mathlib.Core.List.{append_assoc}
use mathlib.Core.Path.{subst}
use aegis_log.Common.{
  ℕ, zero, suc, ◌+◌, ◌^◌, ◌≤◌, ◌<◌, ◌≡◌, ◌≢◌, ◌∙◌, refl, sym, ap, arith, true, false, some, List,
  [], ◌∷◌, ◌++◌, length, drop, get_elem?, get_elem?-drop, drop-append_eq, All, u32, u64, ok,
  length-append, le→leb, lt→leb, leb, ◌⊎◌, inl, inr,
}
use aegis_log.Network.Frame.{Frame, decode_frame, header_size, max_payload_size, magic_byte}
use aegis_log.Network.Frame.RoundTrip.{frame_of}
use aegis_log.Storage.Segment.{Segment, recover_loop, recover}
use aegis_log.Storage.Segment.Frames.{
  length-wire, IsSmall, frame_bytes, wire, length-frame_bytes, frame_bytes-first,
  decode_frame_bytes,
}

-- Bytes in which no frame starts: too few for a header, or with another first byte.
abbrev pub IsFree : List ℕ → Type 0
IsFree rest =
    (length rest < header_size) ⊎ ((b : ℕ) × (get_elem? rest 0 ≡ some b) × (b ≢ magic_byte))

-- The segment is so small that no position wraps at 32 bits.
abbrev pub InRange : Segment → Type 0
InRange s = (length s.bytes ≡ s.max_bytes) × (s.max_bytes + header_size + max_payload_size < 2 ^ 32)

pub get_elem?-split :
    (pre rest : List ℕ) (pos : ℕ)
    → pos ≡ length pre
    → get_elem? (pre ++ rest) pos ≡ get_elem? rest 0
get_elem?-split pre rest pos e =
    let at : pos + 0 ≡ pos = omega arith in
    subst (λ k. get_elem? (pre ++ rest) k ≡ get_elem? rest 0) at
      (sym (get_elem?-drop pos (pre ++ rest) 0)
        ∙ ap (λ t. get_elem? t 0) (drop-append_eq pos pre rest e))

loop-stops :
    (fuel : ℕ) (s : Segment) (pos next : ℕ) (pre rest : List ℕ)
    → s.bytes ≡ pre ++ rest
    → pos ≡ length pre
    → InRange s
    → IsFree rest
    → recover_loop fuel s pos next ≡ some (pos, next)
unfolding recover_loop
loop-stops zero s pos next pre rest layout at (len, range) free = refl
loop-stops (suc fuel) s pos next pre rest layout at (len, range) (inl short) =
    let total : length s.bytes ≡ length (pre ++ rest) = ap length layout in
    let out : leb (u32 (pos + 17)) s.max_bytes ≡ false =
      lt→leb (u32 (pos + 17)) s.max_bytes (omega (arith, length-append pre rest)) in
    rw (recover_loop, out) refl
loop-stops (suc fuel) s pos next pre rest layout at (len, range) (inr (b, first, other)) =
    let here : get_elem? s.bytes pos ≡ some b =
      ap (λ t. get_elem? t pos) layout ∙ get_elem?-split pre rest pos at ∙ first in
    ground (arith, here, other)

loop-round :
    (fuel : ℕ) (s : Segment) (pos next : ℕ) (frame : Frame) (rest : List ℕ)
    → leb (u32 (pos + 17)) s.max_bytes ≡ true
    → get_elem? s.bytes pos ≡ some magic_byte
    → decode_frame (drop pos s.bytes) ≡ ok (frame, rest)
    → recover_loop (suc fuel) s pos next
      ≡ recover_loop fuel s (u32 (pos + u32 (17 + frame.length))) (u64 (frame.offset + 1))
unfolding recover_loop
loop-round fuel s pos next frame rest fits here read = ground (arith, fits, here, read)

loop-step :
    (fuel : ℕ) (s : Segment) (pos next : ℕ) (pre rest p : List ℕ)
    → s.bytes ≡ pre ++ (frame_bytes next p ++ rest)
    → pos ≡ length pre
    → InRange s
    → IsSmall p
    → next + 1 < 2 ^ 64
    → recover_loop (suc fuel) s pos next ≡ recover_loop fuel s (pos + (17 + length p)) (next + 1)
unfolding frame_of
loop-step fuel s pos next pre rest p layout at (len, range) small top =
    let total : length s.bytes ≡ length (pre ++ (frame_bytes next p ++ rest)) = ap length layout in
    let size : length pre + (17 + length p) + length rest ≡ s.max_bytes = omega (
      arith,
      length-append pre (frame_bytes next p ++ rest),
      length-append (frame_bytes next p) rest,
      length-frame_bytes next p,
    ) in
    let fits : leb (u32 (pos + 17)) s.max_bytes ≡ true =
      le→leb (u32 (pos + 17)) s.max_bytes (omega arith) in
    let here : get_elem? s.bytes pos ≡ some magic_byte =
      ap (λ t. get_elem? t pos) layout
      ∙ get_elem?-split pre (frame_bytes next p ++ rest) pos at
      ∙ frame_bytes-first next p rest in
    let read : decode_frame (drop pos s.bytes) ≡ ok (frame_of next p, rest) =
      ap (λ t. decode_frame (drop pos t)) layout
      ∙ ap decode_frame (drop-append_eq pos pre (frame_bytes next p ++ rest) at)
      ∙ decode_frame_bytes next p rest small (omega arith) in
    let pos_eq : u32 (pos + u32 (17 + length p)) ≡ pos + (17 + length p) = omega arith in
    let next_eq : u64 (next + 1) ≡ next + 1 = omega arith in
    loop-round fuel s pos next (frame_of next p) rest fits here read
    ∙ ap (λ k. recover_loop fuel s k (u64 (next + 1))) pos_eq
    ∙ ap (recover_loop fuel s (pos + (17 + length p))) next_eq

loop-recovers :
    (fuel : ℕ) (s : Segment) (pos next : ℕ) (pre rest : List ℕ) (ps : List (List ℕ))
    → s.bytes ≡ pre ++ (wire next ps ++ rest)
    → pos ≡ length pre
    → InRange s
    → All IsSmall ps
    → next + length ps < 2 ^ 64
    → length ps ≤ fuel
    → IsFree rest
    → recover_loop fuel s pos next ≡ some (pos + length (wire next ps), next + length ps)
loop-recovers fuel s pos next pre rest [] layout at range small top enough free =
    let p : pos + 0 ≡ pos = omega arith in
    let n : next + 0 ≡ next = omega arith in
    rw (p, n) (loop-stops fuel s pos next pre rest layout at range free)
loop-recovers zero s pos next pre rest (p ∷ ps) layout at range small top enough free =
    absurd (omega arith)
loop-recovers (suc fuel) s pos next pre rest (p ∷ ps) layout at range (small, smalls) top enough
      free =
    let frame = frame_bytes next p in
    let later = wire (next + 1) ps in
    let layout' : s.bytes ≡ pre ++ (frame ++ (later ++ rest)) =
      layout ∙ ap (λ t. pre ++ t) (append_assoc frame later rest) in
    let layout'' : s.bytes ≡ (pre ++ frame) ++ (later ++ rest) =
      layout' ∙ sym (append_assoc pre frame (later ++ rest)) in
    let at' : pos + (17 + length p) ≡ length (pre ++ frame) =
      omega (arith, length-append pre frame, length-frame_bytes next p) in
    let end : (pos + (17 + length p)) + length later ≡ pos + length (frame ++ later) =
      omega (arith, length-append frame later, length-frame_bytes next p) in
    let count : (next + 1) + length ps ≡ next + suc (length ps) = omega arith in
    loop-step fuel s pos next pre (later ++ rest) p layout' at range small (omega arith)
    ∙ loop-recovers fuel s (pos + (17 + length p)) (next + 1) (pre ++ frame) rest ps layout'' at'
        range smalls (omega arith) (omega arith) free
    ∙ ap (λ e. some (e, (next + 1) + length ps)) end
    ∙ ap (λ n. some (pos + length (frame ++ later), n)) count

recover-loop :
    (s : Segment) (pos next : ℕ)
    → recover_loop (length s.bytes) s 0 s.next_offset ≡ some (pos, next)
    → recover s ≡ some (record s { write_pos = pos; next_offset = next })
unfolding recover
recover-loop s pos next e = rw e refl

-- Recovery of a segment whose bytes are the frames of consecutive messages, of at most 32 MB each, and then bytes in which no frame starts, ends, and puts the write position behind the last frame and the next offset one past its offset. The segment ends more than the largest frame below 2 ^ 32, and the offsets below 2 ^ 64.
pub recover-eq :
    (s : Segment) (ps : List (List ℕ)) (rest : List ℕ)
    → s.bytes ≡ wire s.base_offset ps ++ rest
    → s.next_offset ≡ s.base_offset
    → InRange s
    → All IsSmall ps
    → s.base_offset + length ps < 2 ^ 64
    → IsFree rest
    → recover s
      ≡ some (record s {
        write_pos = length (wire s.base_offset ps);
        next_offset = s.base_offset + length ps;
      })
recover-eq s ps rest layout fresh range small top free =
    let base = s.base_offset in
    let enough : length ps ≤ length s.bytes =
      omega (arith, ap length layout, length-append (wire base ps) rest, length-wire base ps) in
    let zero_eq : 0 + length (wire base ps) ≡ length (wire base ps) = omega arith in
    recover-loop s (length (wire base ps)) (base + length ps) (
      ap (recover_loop (length s.bytes) s 0) fresh
      ∙ loop-recovers (length s.bytes) s 0 base [] rest ps layout refl range small top enough free
      ∙ ap (λ e. some (e, base + length ps)) zero_eq)
