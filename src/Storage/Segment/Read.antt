-- ===== src/Storage/Segment/Read.antt =====
-- What the loop of `ReadAt` of storage/wal_segment.go finds from a place where a frame starts.
use mathlib.Core.List.{append_assoc}
use aegis_log.Common.{
  ℕ, zero, suc, ◌+◌, ◌^◌, ◌≤◌, ◌<◌, ◌≡◌, ◌≢◌, ◌∙◌, sym, ap, arith, true, some, List, [], ◌∷◌, ◌++◌,
  length, get_elem?, All, u32, ok, length-append, ltb, lt→ltb,
}
use aegis_log.Network.Frame.{Frame, decode_frame, magic_byte}
use aegis_log.Network.Frame.RoundTrip.{frame_of}
use aegis_log.Storage.Mapped.{range, range-append}
use aegis_log.Storage.Segment.{Segment, read_loop}
use aegis_log.Storage.Segment.Frames.{
  IsSmall, frame_bytes, wire, length-frame_bytes, frame_bytes-first, decode_frame_bytes,
}
use aegis_log.Storage.Segment.Recovery.{InRange, get_elem?-split}

-- What a round reads at `pos`.
record AtFrame (s : Segment) (pos : ℕ) (frame : Frame) : Type 0 where
  inside : ltb pos s.write_pos ≡ true
  first : get_elem? s.bytes pos ≡ some magic_byte
  part : List ℕ
  left : List ℕ
  slice : range s.bytes pos s.write_pos ≡ some part
  decoded : decode_frame part ≡ ok (frame, left)

round-hit :
    (fuel : ℕ) (s : Segment) (offset pos : ℕ) (frame : Frame)
    → AtFrame s pos frame
    → frame.offset ≡ offset
    → read_loop (suc fuel) s offset pos ≡ some (ok frame.payload)
unfolding read_loop
round-hit fuel s offset pos frame a e = ground (arith, a.inside, a.first, a.slice, a.decoded)

round-miss :
    (fuel : ℕ) (s : Segment) (offset pos : ℕ) (frame : Frame)
    → AtFrame s pos frame
    → frame.offset ≢ offset
    → read_loop (suc fuel) s offset pos
      ≡ read_loop fuel s offset (u32 (pos + u32 (17 + frame.length)))
unfolding read_loop
round-miss fuel s offset pos frame a e = ground (arith, a.inside, a.first, a.slice, a.decoded)

-- The bytes of a segment from a place where the frames of `qs` start.
pub record From (s : Segment) (n pos : ℕ) (qs : List (List ℕ)) : Type 0 where
  pub pre : List ℕ
  pub rest : List ℕ
  pub layout : s.bytes ≡ pre ++ (wire n qs ++ rest)
  pub at : pos ≡ length pre
  pub to_end : s.write_pos ≡ pos + length (wire n qs)
  pub small : All IsSmall qs
  pub top : n + length qs < 2 ^ 64

frame-AtFrame :
    (s : Segment) (n pos : ℕ) (q : List ℕ) (qs : List (List ℕ))
    → From s n pos (q ∷ qs)
    → AtFrame s pos (frame_of n q)
frame-AtFrame s n pos q qs f =
    let frame = frame_bytes n q in
    let later = wire (n + 1) qs in
    record {
      inside =
          lt→ltb pos s.write_pos
            (omega (arith, f.to_end, length-append frame later, length-frame_bytes n q));
      first =
          ap (λ t. get_elem? t pos) f.layout
          ∙ get_elem?-split f.pre ((frame ++ later) ++ f.rest) pos f.at
          ∙ ap (λ t. get_elem? t 0) (append_assoc frame later f.rest)
          ∙ frame_bytes-first n q (later ++ f.rest);
      part = frame ++ later;
      left = later;
      slice =
          ap (λ t. range t pos s.write_pos) f.layout
          ∙ range-append f.pre (frame ++ later) f.rest pos s.write_pos f.at
              (omega (arith, f.to_end, f.at));
      decoded = decode_frame_bytes n q later f.small.0 (omega (arith, f.top));
    }

next-From :
    (s : Segment) (n pos : ℕ) (q : List ℕ) (qs : List (List ℕ))
    → From s n pos (q ∷ qs)
    → From s (n + 1) (pos + (17 + length q)) qs
next-From s n pos q qs f =
    let frame = frame_bytes n q in
    let later = wire (n + 1) qs in
    record {
      pre = f.pre ++ frame;
      rest = f.rest;
      layout =
          f.layout
          ∙ ap (λ t. f.pre ++ t) (append_assoc frame later f.rest)
          ∙ sym (append_assoc f.pre frame (later ++ f.rest));
      at = omega (arith, f.at, length-append f.pre frame, length-frame_bytes n q);
      to_end = omega (arith, f.to_end, length-append frame later, length-frame_bytes n q);
      small = f.small.1;
      top = omega (arith, f.top);
    }

no_wrap :
    (s : Segment) (n pos : ℕ) (q : List ℕ) (qs : List (List ℕ))
    → InRange s
    → From s n pos (q ∷ qs)
    → u32 (pos + u32 (17 + length q)) ≡ pos + (17 + length q)
no_wrap s n pos q qs (len, range) f =
    let total : length s.bytes ≡ length (f.pre ++ (wire n (q ∷ qs) ++ f.rest)) =
      ap length f.layout in
    omega (
      arith,
      f.at,
      length-append f.pre (wire n (q ∷ qs) ++ f.rest),
      length-append (wire n (q ∷ qs)) f.rest,
      length-append (frame_bytes n q) (wire (n + 1) qs),
      length-frame_bytes n q,
    )

-- From a place where frames start the loop finds the message of each of them, with fuel for one round a frame.
pub loop-finds :
    (fuel : ℕ) (s : Segment) (n pos : ℕ) (qs : List (List ℕ)) (j : ℕ) (p : List ℕ)
    → InRange s
    → From s n pos qs
    → length qs ≤ fuel
    → get_elem? qs j ≡ some p
    → read_loop fuel s (n + j) pos ≡ some (ok p)
unfolding frame_of
loop-finds fuel s n pos [] j p range f enough e = cc
loop-finds zero s n pos (q ∷ qs) j p range f enough e = absurd (omega arith)
loop-finds (suc fuel) s n pos (q ∷ qs) zero p range f enough e =
    let same : q ≡ p = cc in
    round-hit fuel s (n + 0) pos (frame_of n q) (frame-AtFrame s n pos q qs f) (omega arith)
    ∙ ap (λ t. some (ok t)) same
loop-finds (suc fuel) s n pos (q ∷ qs) (suc j) p range f enough e =
    let shift : (n + 1) + j ≡ n + suc j = omega arith in
    round-miss fuel s (n + suc j) pos (frame_of n q) (frame-AtFrame s n pos q qs f) (omega arith)
    ∙ ap (read_loop fuel s (n + suc j)) (no_wrap s n pos q qs range f)
    ∙ ap (λ o. read_loop fuel s o (pos + (17 + length q))) (sym shift)
    ∙ loop-finds fuel s (n + 1) (pos + (17 + length q)) qs j p range (next-From s n pos q qs f)
        (omega arith) e
