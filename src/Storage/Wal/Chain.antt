-- ===== src/Storage/Wal/Chain.antt =====
-- Closed segments of storage/wal_segment.go, one behind the other, and the loop of `ReadAt` over them.
use mathlib.Core.List.{append_assoc, append-nil}
use mathlib.Core.Path.{subst}
use native.Mathlib.Decide.{dec_lt}
use aegis_log.Common.{
  ℕ, zero, suc, ◌+◌, ◌-◌, ◌^◌, ◌≤◌, ◌<◌, ◌≡◌, ◌∙◌, refl, sym, ap, arith, some, List, [], ◌∷◌, ◌++◌,
  length, take, take_all, get_elem?, get_elem?-append_left, get_elem?-append_right, length-append,
  ok, le→leb, lt→leb,
}
use aegis_log.Storage.Segment.{Segment, read_at as segment_read_at}
use aegis_log.Storage.Segment.Fetch.{read_at-eq}
use aegis_log.Storage.Segment.Marks.{Serves}
use aegis_log.Storage.Wal.{read_closed}

-- The first segment of a chain, and the payloads of the others.
pub record Link (s : Segment) (base : ℕ) (log : List (List ℕ)) : Type 0 where
  pub ps : List (List ℕ)
  pub rest : List ℕ
  pub back : List (List ℕ)
  pub split : log ≡ ps ++ back
  pub starts : s.base_offset ≡ base
  pub serves : Serves s ps rest
  pub not_empty : 0 < length ps

-- Segments that serve consecutive parts of the payloads from an offset on, none of them empty.
abbrev pub Chain : List Segment → ℕ → List (List ℕ) → Type 0
Chain [] base log = log ≡ []
Chain (s ∷ ss) base log = (l : Link s base log) × Chain ss (base + length l.ps) l.back

-- A segment that serves the payloads behind those of a chain.
pub record Behind (s : Segment) (base : ℕ) (front ps : List (List ℕ)) : Type 0 where
  pub rest : List ℕ
  pub starts : s.base_offset ≡ base + length front
  pub serves : Serves s ps rest

pub Chain-append :
    (ss : List Segment) (s : Segment) (base : ℕ) (log ps : List (List ℕ))
    → Chain ss base log
    → Behind s base log ps
    → 0 < length ps
    → Chain (ss ++ (s ∷ [])) base (log ++ ps)
Chain-append [] s base log ps empty b some_payload = (
  record {
    ps = ps;
    rest = b.rest;
    back = [];
    split = ap (λ t. t ++ ps) empty ∙ sym (append-nil ps);
    starts = omega (arith, b.starts, ap length empty);
    serves = b.serves;
    not_empty = some_payload;
  },
  refl,
)
Chain-append (t ∷ ss) s base log ps (l, chain) b some_payload =
    let b' : Behind s (base + length l.ps) l.back ps = record {
      rest = b.rest;
      starts = omega (arith, b.starts, ap length l.split, length-append l.ps l.back);
      serves = b.serves;
    } in
    (
      record {
        ps = l.ps;
        rest = l.rest;
        back = l.back ++ ps;
        split = ap (λ t. t ++ ps) l.split ∙ append_assoc l.ps l.back ps;
        starts = l.starts;
        serves = l.serves;
        not_empty = l.not_empty;
      },
      Chain-append ss s (base + length l.ps) l.back ps chain b' some_payload,
    )

-- The last of the first segments of a chain, and what stands before it.
record Last (ss : List Segment) (i base : ℕ) (log : List (List ℕ)) : Type 0 where
  front : List (List ℕ)
  ps : List (List ℕ)
  last : Segment
  at : get_elem? ss i ≡ some last
  split : log ≡ front ++ ps
  chain : Chain (take i ss) base front
  behind : Behind last base front ps

Chain-Last :
    (ss : List Segment) (i base : ℕ) (log : List (List ℕ))
    → i < length ss
    → Chain (take (suc i) ss) base log
    → Last ss i base log
Chain-Last [] i base log h chain = absurd (omega arith)
Chain-Last (s ∷ ss) zero base log h (l, empty) = record {
  front = [];
  ps = l.ps;
  last = s;
  at = refl;
  split = l.split ∙ ap (λ t. l.ps ++ t) empty ∙ append-nil l.ps;
  chain = refl;
  behind = record { rest = l.rest; starts = omega (arith, l.starts); serves = l.serves };
}
Chain-Last (s ∷ ss) (suc i) base log h (l, chain) =
    let z = Chain-Last ss i (base + length l.ps) l.back (omega arith) chain in
    record {
      front = l.ps ++ z.front;
      ps = z.ps;
      last = z.last;
      at = z.at;
      split = l.split ∙ ap (λ t. l.ps ++ t) z.split ∙ sym (append_assoc l.ps z.front z.ps);
      chain = (
        record {
          ps = l.ps;
          rest = l.rest;
          back = z.front;
          split = refl;
          starts = l.starts;
          serves = l.serves;
          not_empty = l.not_empty;
        },
        z.chain,
      );
      behind = record {
        rest = z.behind.rest;
        starts = omega (arith, z.behind.starts, length-append l.ps z.front);
        serves = z.behind.serves;
      };
    }

read_closed-here :
    (ss : List Segment) (i offset : ℕ) (s : Segment)
    → get_elem? ss i ≡ some s
    → s.base_offset ≤ offset
    → read_closed ss (suc i) offset ≡ segment_read_at s offset
unfolding read_closed
read_closed-here ss i offset s e le = ground (arith, e, le→leb s.base_offset offset le)

read_closed-before :
    (ss : List Segment) (i offset : ℕ) (s : Segment)
    → get_elem? ss i ≡ some s
    → offset < s.base_offset
    → read_closed ss (suc i) offset ≡ read_closed ss i offset
unfolding read_closed
read_closed-before ss i offset s e lt = ground (arith, e, lt→leb s.base_offset offset lt)

-- A segment serves its part of the payloads at their offsets.
pub Behind-read :
    (s : Segment) (base k : ℕ) (front ps : List (List ℕ)) (p : List ℕ)
    → Behind s base front ps
    → base + length front + length ps < 2 ^ 64
    → length front ≤ k
    → get_elem? (front ++ ps) k ≡ some p
    → segment_read_at s (base + k) ≡ some (ok p)
Behind-read s base k front ps p b top le e =
    let j = k - length front in
    let shift : s.base_offset + j ≡ base + k = omega (arith, b.starts) in
    let there : get_elem? ps j ≡ some p = get_elem?-append_right front ps k le ∙ e in
    ap (segment_read_at s) (sym shift)
    ∙ read_at-eq s ps b.rest j p b.serves.stores b.serves.points b.serves.small
        (omega (arith, b.starts)) there

read_first :
    (ss : List Segment) (i base k : ℕ) (log : List (List ℕ)) (p : List ℕ)
    → i ≤ length ss
    → Chain (take i ss) base log
    → base + length log < 2 ^ 64
    → get_elem? log k ≡ some p
    → read_closed ss i (base + k) ≡ some (ok p)
read_first ss zero base k log p h chain top e = cc (chain, e)
read_first ss (suc i) base k log p h chain top e =
    let z = Chain-Last ss i base log (omega arith) chain in
    let len : length log ≡ length z.front + length z.ps =
      omega (arith, ap length z.split, length-append z.front z.ps) in
    let e' : get_elem? (z.front ++ z.ps) k ≡ some p = ap (λ t. get_elem? t k) (sym z.split) ∙ e in
    elim (dec_lt k (length z.front)) [
      | yes lt ↦
          read_closed-before ss i (base + k) z.last z.at (omega (arith, z.behind.starts))
          ∙ read_first ss i base k z.front p (omega arith) z.chain (omega arith)
              (sym (get_elem?-append_left z.front z.ps k lt) ∙ e')
      | no ge ↦
          read_closed-here ss i (base + k) z.last z.at (omega (arith, z.behind.starts))
          ∙ Behind-read z.last base k z.front z.ps p z.behind (omega arith) (omega arith) e'
    ]

-- The loop over the segments of a chain finds the payload of every offset that they have.
pub read_closed-eq :
    (ss : List Segment) (base k : ℕ) (log : List (List ℕ)) (p : List ℕ)
    → Chain ss base log
    → base + length log < 2 ^ 64
    → get_elem? log k ≡ some p
    → read_closed ss (length ss) (base + k) ≡ some (ok p)
read_closed-eq ss base k log p chain top e =
    read_first ss (length ss) base k log p (omega arith)
      (subst (λ t. Chain t base log) (sym (take_all (length ss) ss (omega arith))) chain) top e
