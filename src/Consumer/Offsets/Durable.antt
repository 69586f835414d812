-- ===== src/Consumer/Offsets/Durable.antt =====
-- The checkpoint file of consumer/group_coordinator.go against the offsets in memory.
use Prim.Native.String.{String}
use mathlib.Core.List.{append_assoc}
use aegis_log.Common.{
  ℕ, ◌≡◌, ◌≢◌, ◌<◌, ◌∙◌, refl, sym, ap, arith, Option, some, none, List, [], ◌∷◌, ◌++◌, length, ok,
  Bool-cases, Option-cases, inl, inr, All, leb, lt→leb,
}
use aegis_log.Common.Maps.{Map}
use aegis_log.Consumer.{
  OffsetRecord, ConsumerGroup, Coordinator, save_offset, join_group, leave_group, heartbeat,
  commit_offset, Written,
}
use aegis_log.Consumer.Recover.{
  split_lines, drop_cr, max_token, recover_line, recover_lines, recover_offsets,
}
use aegis_log.Consumer.Offsets.Saved.{saved, saved-save_offset}

-- No newline in the line.
abbrev pub IsLine : List ℕ → Type 0
IsLine = All (λ b. b ≢ 10)

-- What the code relies on in encoding/json: what was encoded is decoded again, and an encoded object is one line that is not empty and does not end with a carriage return.
pub record IsCodec (marshal : OffsetRecord → Option (List ℕ))
    (unmarshal : List ℕ → Option OffsetRecord) : Type 0 where
  pub round_trip :
      (r : OffsetRecord) (line : List ℕ) → marshal r ≡ some line → unmarshal line ≡ some r
  pub one_line : (r : OffsetRecord) (line : List ℕ) → marshal r ≡ some line → IsLine line
  pub not_empty : (r : OffsetRecord) (line : List ℕ) → marshal r ≡ some line → 0 < length line
  pub no_cr : (r : OffsetRecord) (line : List ℕ) → marshal r ≡ some line → drop_cr line ≡ line

-- Lines as they stand in the file.
abbrev pub terminated : List (List ℕ) → List ℕ
terminated [] = []
terminated (l ∷ ls) = l ++ (10 ∷ terminated ls)

split_lines-line : (l bs : List ℕ) → IsLine l → split_lines (l ++ (10 ∷ bs)) ≡ l ∷ split_lines bs
unfolding split_lines
split_lines-line [] bs p = refl
split_lines-line (b ∷ l) bs (p, ps) = ground (arith, split_lines-line l bs ps)

split_lines-terminated : (ls : List (List ℕ)) → All IsLine ls → split_lines (terminated ls) ≡ ls
unfolding split_lines
split_lines-terminated [] ps = refl
split_lines-terminated (l ∷ ls) (p, ps) =
    split_lines-line l (terminated ls) p ∙ ap (λ t. l ∷ t) (split_lines-terminated ls ps)

pub terminated-append :
    (ls : List (List ℕ)) (l : List ℕ)
    → terminated (ls ++ (l ∷ [])) ≡ terminated ls ++ (l ++ (10 ∷ []))
terminated-append [] l = refl
terminated-append (k ∷ ls) l =
    ap (λ t. k ++ (10 ∷ t)) (terminated-append ls l)
    ∙ sym (append_assoc k (10 ∷ terminated ls) (l ++ (10 ∷ [])))

pub All-append :
    {A : Type 0} (P : A → Type 0) (xs : List A) (x : A) → All P xs → P x → All P (xs ++ (x ∷ []))
All-append P [] x ps p = (p, tt)
All-append P (y ∷ xs) x (q, qs) p = (q, All-append P xs x qs p)

module _ (unmarshal : List ℕ → Option OffsetRecord) where
  -- A line behind the others is read last.
  pub recover_lines-append :
      (groups gs : Map ConsumerGroup) (ls : List (List ℕ)) (l : List ℕ)
      → length l < max_token
      → recover_lines unmarshal groups ls ≡ ok gs
      → recover_lines unmarshal groups (ls ++ (l ∷ [])) ≡ ok (recover_line unmarshal gs (drop_cr l))
  unfolding recover_lines
  recover_lines-append groups gs [] l h e = ground (arith, lt→leb max_token (length l) h)
  recover_lines-append groups gs (k ∷ ls) l h e = elim (Bool-cases (leb max_token (length k))) [
    | inl long ↦ absurd (ground arith)
    | inr short ↦
        rw short (
          recover_lines-append (recover_line unmarshal groups (drop_cr k)) gs ls l h (ground arith))
  ]

  -- The file holds whole lines, and the offsets read from it are those in memory.
  pub record Durable (c : Coordinator) : Type 0 where
    pub lines : List (List ℕ)
    pub recovered : Map ConsumerGroup
    pub layout : c.file ≡ terminated lines
    pub whole : All IsLine lines
    pub read : recover_lines unmarshal [] lines ≡ ok recovered
    pub agree :
        (group_id partition : String)
        → saved recovered group_id partition ≡ saved c.groups group_id partition

  pub Durable-recovers :
      (c : Coordinator) (d : Durable c) → recover_offsets unmarshal c.file ≡ ok d.recovered
  unfolding recover_offsets
  Durable-recovers c d = rw (d.layout, split_lines-terminated d.lines d.whole) d.read

  -- An operation that leaves the file and the saved offsets as they are.
  pub unchanged-Durable :
      (c c' : Coordinator)
      → c'.file ≡ c.file
      → ((group_id partition : String)
          → saved c'.groups group_id partition ≡ saved c.groups group_id partition)
      → Durable c
      → Durable c'
  unchanged-Durable c c' same_file same d = record {
    lines = d.lines;
    recovered = d.recovered;
    layout = same_file ∙ d.layout;
    whole = d.whole;
    read = d.read;
    agree = λ group_id partition. d.agree group_id partition ∙ sym (same group_id partition);
  }

  -- Saving an offset keeps two maps in agreement.
  pub save_offset-agree :
      (gs gs' : Map ConsumerGroup) (k p : String) (offset : ℕ)
      → ((group_id partition : String) → saved gs group_id partition ≡ saved gs' group_id partition)
      → (group_id partition : String)
      → saved (save_offset gs k p offset) group_id partition
        ≡ saved (save_offset gs' k p offset) group_id partition
  save_offset-agree gs gs' k p offset same group_id partition =
      rw
        (
          saved-save_offset gs k p offset group_id partition,
          saved-save_offset gs' k p offset group_id partition,
          same group_id partition,
        )
        refl

pub join_group-file :
    (c c' : Coordinator) (k member_id : String) (available mine : List String) (now : ℕ)
    → join_group c k member_id available now ≡ some (c', mine)
    → c'.file ≡ c.file
unfolding join_group
join_group-file c c' k member_id available mine now e = ground arith

pub leave_group-file :
    (c c' : Coordinator) (k member_id : String) (available : List String)
    → leave_group c k member_id available ≡ some (ok c')
    → c'.file ≡ c.file
unfolding leave_group
leave_group-file c c' k member_id available e = ground arith

pub heartbeat-file :
    (c c' : Coordinator) (k member_id : String) (now : ℕ)
    → heartbeat c k member_id now ≡ ok c'
    → c'.file ≡ c.file
unfolding heartbeat
heartbeat-file c c' k member_id now e = ground arith

abbrev pub record_of : String → String → ℕ → ℕ → OffsetRecord
record_of k p offset now = record { group_id = k; partition = p; offset = offset; timestamp = now }

-- The coordinator once a line is in the file and its offset in memory.
abbrev pub committed : Coordinator → String → String → ℕ → List ℕ → Coordinator
committed c k p offset line = record c {
  groups = save_offset c.groups k p offset;
  file = c.file ++ (line ++ (10 ∷ []));
}

pub commit_offset-committed :
    (marshal : OffsetRecord → Option (List ℕ)) (c c' : Coordinator) (k p : String) (offset now : ℕ)
    (written : Written)
    → commit_offset marshal c k p offset now written ≡ (c', none)
    → (line : List ℕ) × (marshal (record_of k p offset now) ≡ some line)
      × (committed c k p offset line ≡ c')
unfolding commit_offset
commit_offset-committed marshal c c' k p offset now written e =
    elim (Option-cases (marshal (record_of k p offset now))) [
      | inl fails ↦ absurd (ground arith)
      | inr (line, m) ↦ (line, m, ground arith)
    ]
