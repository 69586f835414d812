-- ===== src/Consumer/Recover.antt =====
-- `recoverOffsets` of consumer/group_coordinator.go over the bytes of the checkpoint file.
use aegis_log.Common.{
  ℕ, Option, some, none, List, [], ◌∷◌, leb, ◌==◌, if◌then◌else◌, length, Result, ok, err,
}
use aegis_log.Common.Maps.{Map}
use aegis_log.Consumer.{OffsetRecord, ConsumerGroup, ConsumerError, token_too_long, save_offset}

-- `bufio.ScanLines`: the lines, the last one also when no newline ends it.
abbrev pub onto_first : ℕ → List (List ℕ) → List (List ℕ)
onto_first b [] = (b ∷ []) ∷ []
onto_first b (l ∷ ls) = (b ∷ l) ∷ ls

unfoldable pub split_lines : List ℕ → List (List ℕ)
split_lines [] = []
split_lines (b ∷ bs) = let rest = split_lines bs in if b == 10 then [] ∷ rest else onto_first b rest

-- A carriage return at the end of a line is dropped.
unfoldable pub drop_cr : List ℕ → List ℕ
drop_cr [] = []
drop_cr (b ∷ []) = if b == 13 then [] else b ∷ []
drop_cr (b ∷ (c ∷ bs)) = b ∷ drop_cr (c ∷ bs)

-- `bufio.MaxScanTokenSize`: a line of so many bytes stops the scanner.
abbrev pub max_token : ℕ
max_token = 65536

-- `json.Unmarshal` of an OffsetRecord is a parameter.
module _ (unmarshal : List ℕ → Option OffsetRecord) where
  -- One line of the file: a line that does not parse is skipped.
  unfoldable pub recover_line : Map ConsumerGroup → List ℕ → Map ConsumerGroup
  recover_line groups line = if length line == 0 then groups else (elim (unmarshal line) [
    | none ↦ groups
    | some rec ↦ save_offset groups rec.group_id rec.partition rec.offset
  ])

  unfoldable pub recover_lines :
      Map ConsumerGroup → List (List ℕ) → Result ConsumerError (Map ConsumerGroup)
  unfolding recover_line drop_cr
  recover_lines groups [] = ok groups
  recover_lines groups (line ∷ lines) =
      let rest = recover_lines (recover_line groups (drop_cr line)) lines in
      if leb max_token (length line) then err token_too_long else rest

  unfoldable pub recover_offsets : List ℕ → Result ConsumerError (Map ConsumerGroup)
  unfolding recover_lines split_lines
  recover_offsets file = recover_lines [] (split_lines file)
