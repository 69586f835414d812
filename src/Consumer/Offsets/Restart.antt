-- ===== src/Consumer/Offsets/Restart.antt =====
-- A coordinator of consumer/group_coordinator.go that is started again from its checkpoint file.
use Prim.Native.String.{String}
use mathlib.Core.Path.{subst}
use aegis_log.Common.{
  ◌↔◌, ℕ, ◌≡◌, ◌<◌, ◌∙◌, refl, sym, ap, arith, false, Option, some, none, List, [], ◌∷◌, ◌++◌,
  length, ok,
}
use aegis_log.Common.Maps.{Map}
use aegis_log.Consumer.{
  OffsetRecord, ConsumerGroup, Coordinator, save_offset, join_group, leave_group, heartbeat, evict,
  fetch_offset, commit_offset, Written,
}
use aegis_log.Consumer.Recover.{drop_cr, max_token, recover_line, recover_lines, recover_offsets}
use aegis_log.Consumer.Offsets.Saved.{
  join_group-saved, leave_group-saved, heartbeat-saved, evict_groups-saved, fetch_offset-saved,
}
use aegis_log.Consumer.Offsets.Durable.{
  IsLine, IsCodec, terminated-append, All-append, Durable, Durable-recovers, recover_lines-append,
  unchanged-Durable, save_offset-agree, join_group-file, leave_group-file, heartbeat-file,
  commit_offset-committed, record_of, committed,
}

-- What a coordinator does between its start and its end; a commit is one that reports no error, of a record whose line the scanner can read.
pub data Change (marshal : OffsetRecord → Option (List ℕ)) (c c' : Coordinator) : Type 0 where
  joined :
      (k member_id : String) (available mine : List String) (now : ℕ)
      → join_group c k member_id available now ≡ some (c', mine)
      → Change marshal c c'
  left :
      (k member_id : String) (available : List String)
      → leave_group c k member_id available ≡ some (ok c')
      → Change marshal c c'
  beat :
      (k member_id : String) (now : ℕ) → heartbeat c k member_id now ≡ ok c' → Change marshal c c'
  evicted : (now : ℕ) → evict c now ≡ c' → Change marshal c c'
  commit :
      (k p : String) (offset now : ℕ) (written : Written)
      → ((line : List ℕ) → marshal (record_of k p offset now) ≡ some line → length line < max_token)
      → commit_offset marshal c k p offset now written ≡ (c', none)
      → Change marshal c c'

pub data Reach (marshal : OffsetRecord → Option (List ℕ)) (c : Coordinator)
    : Coordinator → Type 0 where
  here : Reach marshal c c
  next : {d e : Coordinator} → Reach marshal c d → Change marshal d e → Reach marshal c e

-- A coordinator with an empty checkpoint file.
abbrev pub first_start : ℕ → Coordinator
first_start timeout = record {
  groups = [];
  session_timeout = timeout;
  file = [];
  writer_failed = false;
}

-- `NewCoordinator` on the file that an earlier coordinator left, with the groups that it recovers.
abbrev pub restarted : Coordinator → Map ConsumerGroup → Coordinator
restarted c groups = record c { groups = groups; writer_failed = false }

module _ (marshal : OffsetRecord → Option (List ℕ)) (unmarshal : List ℕ → Option OffsetRecord)
    (codec : IsCodec marshal unmarshal) where
  recover_line-saved :
      (gs : Map ConsumerGroup) (k p : String) (offset now : ℕ) (line : List ℕ)
      → marshal (record_of k p offset now) ≡ some line
      → recover_line unmarshal gs (drop_cr line) ≡ save_offset gs k p offset
  unfolding recover_line
  recover_line-saved gs k p offset now line m = rw (codec.no_cr (record_of k p offset now) line m) (
      ground (
        arith,
        codec.not_empty (record_of k p offset now) line m,
        codec.round_trip (record_of k p offset now) line m,
      ))

  committed-Durable :
      (c : Coordinator) (k p : String) (offset now : ℕ) (line : List ℕ)
      → marshal (record_of k p offset now) ≡ some line
      → length line < max_token
      → Durable unmarshal c
      → Durable unmarshal (committed c k p offset line)
  committed-Durable c k p offset now line m short d = record {
    lines = d.lines ++ (line ∷ []);
    recovered = save_offset d.recovered k p offset;
    layout = ap (λ t. t ++ (line ++ (10 ∷ []))) d.layout ∙ sym (terminated-append d.lines line);
    whole =
        All-append IsLine d.lines line d.whole (codec.one_line (record_of k p offset now) line m);
    read =
        recover_lines-append unmarshal [] d.recovered d.lines line short d.read
        ∙ ap (λ g. ok g) (recover_line-saved d.recovered k p offset now line m);
    agree = save_offset-agree unmarshal d.recovered c.groups k p offset d.agree;
  }

  Change-Durable :
      (c c' : Coordinator) → Change marshal c c' → Durable unmarshal c → Durable unmarshal c'
  Change-Durable c c' (joined k member_id available mine now e) d =
      unchanged-Durable unmarshal c c' (join_group-file c c' k member_id available mine now e)
        (join_group-saved c c' k member_id available mine now e) d
  Change-Durable c c' (left k member_id available e) d =
      unchanged-Durable unmarshal c c' (leave_group-file c c' k member_id available e)
        (leave_group-saved c c' k member_id available e) d
  Change-Durable c c' (beat k member_id now e) d =
      unchanged-Durable unmarshal c c' (heartbeat-file c c' k member_id now e)
        (heartbeat-saved c c' k member_id now e) d
  Change-Durable c c' (evicted now e) d = subst (Durable unmarshal) e (
      unchanged-Durable unmarshal c (evict c now) refl
        (evict_groups-saved c.session_timeout now c.groups) d)
  Change-Durable c c' (commit k p offset now written short e) d =
      let (line, m, eq) = commit_offset-committed marshal c c' k p offset now written e in
      subst (Durable unmarshal) eq (committed-Durable c k p offset now line m (short line m) d)

  Reach-Durable :
      (c c' : Coordinator) → Reach marshal c c' → Durable unmarshal c → Durable unmarshal c'
  Reach-Durable c c' here d = d
  Reach-Durable c c' (next {d = m} run change) d =
      Change-Durable m c' change (Reach-Durable c m run d)

  first_start-Durable : (timeout : ℕ) → Durable unmarshal (first_start timeout)
  unfolding recover_lines
  first_start-Durable timeout = record {
    lines = [];
    recovered = [];
    layout = refl;
    whole = tt;
    read = refl;
    agree = λ group_id partition. refl;
  }

  -- However a coordinator was used since it started on an empty file, recovery from its checkpoint file succeeds, and the restarted coordinator fetches the same offset as the running one for every group and partition that has one, and no other, provided that no write failed, each record's line is below the scanner's limit, and the JSON codec decodes what it encodes to one line.
  pub restart_keeps_offsets :
      (timeout : ℕ) (c : Coordinator)
      → Reach marshal (first_start timeout) c
      → (groups : Map ConsumerGroup) × (recover_offsets unmarshal c.file ≡ ok groups)
        × ((group_id partition : String) (offset : ℕ)
            → (fetch_offset (restarted c groups) group_id partition ≡ ok offset)
              ↔ (fetch_offset c group_id partition ≡ ok offset))
  restart_keeps_offsets timeout c run =
      let d = Reach-Durable (first_start timeout) c run (first_start-Durable timeout) in
      (
        d.recovered,
        Durable-recovers unmarshal c d,
        λ group_id partition offset.
            let now = fetch_offset-saved c group_id partition offset in
            let later = fetch_offset-saved (restarted c d.recovered) group_id partition offset in
            let same = d.agree group_id partition in
            ((λ e. now.1 (sym same ∙ later.0 e)), (λ e. later.1 (same ∙ now.0 e))),
      )
