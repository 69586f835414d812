-- ===== src/Raft/Leader.antt =====
-- What a leader of raft/consensus.go sends, proposes and acknowledges, and how it is elected.
use Prim.Native.String.{String}
use native.Mathlib.Decide.{dec_le, dec_lt}
use mathlib.Core.Path.{subst}
use aegis_log.Common.{
  inl, inr, get_elem?, ℕ, suc, ◌+◌, ◌-◌, ◌^◌, ◌≤◌, ◌<◌, ◌≡◌, ◌≢◌, refl, ap, arith, true, Option,
  some, List, [], ◌∷◌, ◌++◌, length, length-append, length-drop, drop, drop_all, All, u64,
  if◌then◌else◌, ◌==◌, ok, ◌⊎◌, ◌*◌,
}
use aegis_log.Common.Faults.{Paired, map_each-Paired}
use aegis_log.Raft.Types.{
  LogEntry, RaftNode, Outgoing, append_entries, install_snapshot, leader, candidate, is_leader,
  RequestVoteReply,
}
use aegis_log.Raft.Node.{
  message_for, broadcast_append_entries, term_of, get_log_term, get_log_slice, quorum, step_down,
}
use aegis_log.Raft.Election.{
  propose, Proposal, Wake, poll, stopped, timed_out, await, on_vote_reply,
}
use aegis_log.Raft.Log.{
  Indexed, IsWellFormed, Indexed-drop, Indexed-append, get_log_term-eq, get_log_term_out,
  get_elem?_index, get_log_slice-eq, last_log_index-eq, Anchored-length, Anchored-append,
}
use aegis_log.Raft.Append.Outcome.{IsRequest}

-- What a message must be for its receiver's handler to return.
abbrev pub IsSendable : Outgoing → Type 0
IsSendable (Outgoing.request_vote p args) = Unit {0}
IsSendable (append_entries p args) = IsRequest args
IsSendable (install_snapshot p args) = args.last_included_index < 2 ^ 63

entries_behind :
    (s : RaftNode) (next : ℕ)
    → IsWellFormed s
    → s.last_included_index < next
    → next ≤ s.last_included_index + length s.log
    → Indexed next (drop (next - s.last_included_index) s.log)
entries_behind s next w lo hi =
    let e : s.last_included_index + (next - s.last_included_index) ≡ next = omega arith in
    subst (λ k. Indexed k (drop (next - s.last_included_index) s.log)) e
      (Indexed-drop s.last_included_index (next - s.last_included_index) s.log w.indexed
        (omega arith))

-- `nextIdx` of the loop.
abbrev next_for : RaftNode → String → ℕ
next_for s p = if s.next_index p == 0 then 1 else s.next_index p

-- The term that the log has at an index, or 0 behind its end.
abbrev pub TermAt : RaftNode → ℕ → ℕ → Type 0
TermAt s i t =
    ((e : LogEntry) × (get_elem? s.log (i - s.last_included_index) ≡ some e) × (e.term ≡ t))
    ⊎ ((s.last_included_index + length s.log ≤ i) × (t ≡ 0))

-- What a node sends to the peer `p`: its snapshot where the next index lies in it, or else the log from the next index on, with the index and the term of the entry before.
pub data IsFor (s : RaftNode) (p : String) (m : Outgoing) : Type 0 where
  of_snapshot :
      next_for s p ≤ s.last_included_index
      → m
        ≡ install_snapshot p (record {
          term = s.current_term;
          leader_id = s.id;
          last_included_index = s.last_included_index;
          last_included_term = s.last_included_term;
          state = s.last_snapshot_data;
        })
      → IsFor s p m
  of_entries :
      {t : ℕ}
      → s.last_included_index < next_for s p
      → TermAt s (next_for s p - 1) t
      → m
        ≡ append_entries p (record {
          term = s.current_term;
          leader_id = s.id;
          prev_log_index = next_for s p - 1;
          prev_log_term = t;
          entries = drop (next_for s p - s.last_included_index) s.log;
          leader_commit = s.commit_index;
        })
      → IsFor s p m

get_log_term-TermAt :
    (s : RaftNode) (i : ℕ)
    → IsWellFormed s
    → i < 2 ^ 63
    → s.last_included_index ≤ i
    → (t : ℕ) × (get_log_term s i ≡ some t) × TermAt s i t
unfolding term_of
get_log_term-TermAt s i w small lo = elim (dec_lt i (s.last_included_index + length s.log)) [
  | yes hi ↦
      let (e, p, q) =
        get_elem?_index s.last_included_index (i - s.last_included_index) s.log w.indexed
          (omega arith) in
      (e.term, rw (get_log_term-eq s i w lo hi, p), inl (e, p, refl))
  | no hi ↦ (0, get_log_term_out s i w small (inr (omega arith)), inr (omega arith, refl))
]

module _ (s : RaftNode) (p : String) where
  message_for-snapshot :
      next_for s p ≤ s.last_included_index
      → message_for s p
        ≡ some (
            install_snapshot p (record {
              term = s.current_term;
              leader_id = s.id;
              last_included_index = s.last_included_index;
              last_included_term = s.last_included_term;
              state = s.last_snapshot_data;
            }))
  unfolding message_for
  message_for-snapshot h = ground arith

  message_for-entries :
      {t : ℕ} {es : List LogEntry}
      → s.last_included_index < next_for s p
      → get_log_term s (next_for s p - 1) ≡ some t
      → get_log_slice s (next_for s p) ≡ some es
      → message_for s p
        ≡ some (
            append_entries p (record {
              term = s.current_term;
              leader_id = s.id;
              prev_log_index = next_for s p - 1;
              prev_log_term = t;
              entries = es;
              leader_commit = s.commit_index;
            }))
  unfolding message_for
  message_for-entries h e f = ground arith

-- The entries of a message stand behind its `prev_log_index`.
slice-Indexed :
    (s : RaftNode) (next : ℕ)
    → IsWellFormed s
    → s.last_included_index < next
    → Indexed (suc (next - 1)) (drop (next - s.last_included_index) s.log)
slice-Indexed s next w lo = elim (dec_le next (s.last_included_index + length s.log)) [
  | yes inside ↦
      let e : next ≡ suc (next - 1) = omega arith in
      subst (λ k. Indexed k (drop (next - s.last_included_index) s.log)) e
        (entries_behind s next w lo inside)
  | no out ↦ rw (drop_all (next - s.last_included_index) s.log (omega arith)) tt
]

message_for-IsSendable :
    (s : RaftNode) (p : String)
    → IsWellFormed s
    → s.next_index p < 2 ^ 63
    → (m : Outgoing) × (message_for s p ≡ some m) × IsSendable m × IsFor s p m
message_for-IsSendable s p w r =
    let next = next_for s p in
    let small : next < 2 ^ 63 = ground arith in
    let at = next - s.last_included_index in
    elim (dec_le next s.last_included_index) [
      | yes behind ↦ (
        _,
        message_for-snapshot s p behind,
        omega (arith, w.in_range, Anchored-length s.last_included_term s.log w.anchored),
        of_snapshot behind refl,
      )
      | no ahead ↦
          let (t, e, held) = get_log_term-TermAt s (next - 1) w (omega arith) (omega arith) in
          (
            _,
            message_for-entries s p (omega arith) e (get_log_slice-eq s next small (omega arith)),
            record {
              indexed = slice-Indexed s next w (omega arith);
              in_range = omega (arith, length-drop at s.log, w.in_range, small);
            },
            of_entries (omega arith) held refl,
          )
    ]

-- The broadcast of a well-formed node whose `next_index` stays below 2 ^ 63 does not fault and makes one message for each peer, in order: the snapshot of the node where the next index of the peer lies in it, and otherwise the log from that index on, with the index and the term of the entry before it, and each with the term and the id of the node. Every message is one that its receiver does not fault on: the entries of an append are indexed from behind `prev_log_index`, below 2 ^ 63, and a snapshot ends below 2 ^ 63.
pub broadcast-IsSendable :
    (s : RaftNode)
    → IsWellFormed s
    → ((p : String) → s.next_index p < 2 ^ 63)
    → (messages : List Outgoing) × (broadcast_append_entries s ≡ some messages)
      × All IsSendable messages
      × Paired (IsFor s) s.peers messages
unfolding broadcast_append_entries
broadcast-IsSendable s w r =
    map_each-Paired (IsFor s) IsSendable (message_for s) s.peers
      (λ p. message_for-IsSendable s p w (r p))

-- What a proposal leaves.
pub record IsProposed (s s' : RaftNode) (payload : Option (List ℕ)) (messages : List Outgoing)
    (p : Proposal) : Type 0 where
  pub index : p.index ≡ s.last_included_index + length s.log
  pub term : p.term ≡ s.current_term
  pub appended :
      s'.log ≡ s.log ++ (record { index = p.index; term = s.current_term; payload = payload } ∷ [])
  pub well_formed : IsWellFormed s'
  pub sendable : All IsSendable messages
  pub sent : Paired (IsFor s') s'.peers messages

with_entry : RaftNode → Option (List ℕ) → RaftNode
with_entry s payload = record s {
  log =
      s.log
      ++ (record {
        index = s.last_included_index + length s.log;
        term = s.current_term;
        payload = payload;
      }
          ∷ []);
}

with_entry-IsWellFormed :
    (s : RaftNode) (payload : Option (List ℕ))
    → IsWellFormed s
    → s.last_included_index + length s.log < 2 ^ 63
    → IsWellFormed (with_entry s payload)
unfolding with_entry
with_entry-IsWellFormed s payload w r =
    let e : LogEntry = record {
      index = s.last_included_index + length s.log;
      term = s.current_term;
      payload = payload;
    } in
    record {
      indexed = Indexed-append _ s.log (e ∷ []) w.indexed (refl, tt);
      anchored = Anchored-append s.last_included_term s.log (e ∷ []) w.anchored;
      in_range = omega (arith, length-append s.log (e ∷ []));
      committed = w.committed;
      applied = w.applied;
    }

propose-eq :
    (s : RaftNode) (payload : Option (List ℕ)) {messages : List Outgoing}
    → IsWellFormed s
    → s.last_included_index + length s.log < 2 ^ 63
    → s.role ≡ leader
    → broadcast_append_entries (with_entry s payload) ≡ some messages
    → propose s payload
      ≡ some (
          ok (
            (with_entry s payload, messages),
            record { index = s.last_included_index + length s.log; term = s.current_term },
          ))
unfolding propose with_entry
propose-eq s payload w r l b =
    let pos = Anchored-length s.last_included_term s.log w.anchored in
    let index : u64 (s.last_included_index + length s.log - 1 + 1)
        ≡ s.last_included_index + length s.log =
      omega arith in
    let leads : is_leader s.role ≡ true = ap is_leader l in
    simp (leads, last_log_index-eq s w, index, b) refl

-- A proposal to a well-formed leader with room below 2 ^ 63 does not fault: it appends one entry of the leader's term under the next index, keeps the node well formed, and sends each peer the message that the new log asks for, which its receiver does not fault on.
pub propose-IsProposed :
    (s : RaftNode) (payload : Option (List ℕ))
    → IsWellFormed s
    → s.last_included_index + length s.log < 2 ^ 63
    → ((p : String) → s.next_index p < 2 ^ 63)
    → s.role ≡ leader
    → (s' : RaftNode) × (messages : List Outgoing) × (p : Proposal) × (propose s payload
        ≡ some (ok ((s', messages), p)))
      × IsProposed s s' payload messages p
propose-IsProposed s payload w r n l =
    let w' = with_entry-IsWellFormed s payload w r in
    let (messages, b, a, f) =
      broadcast-IsSendable (with_entry s payload) w' (unfold with_entry in n) in
    (
      with_entry s payload,
      messages,
      _,
      propose-eq s payload w r l b,
      record {
        index = refl;
        term = refl;
        appended = unfold with_entry in refl;
        well_formed = w';
        sendable = a;
        sent = f;
      },
    )

-- The node that a wait saw.
abbrev pub Saw : Proposal → List Wake → Type 0
Saw p [] = ⊥
Saw p (stopped ∷ ws) = ⊥
Saw p (timed_out ∷ ws) = ⊥
Saw p (poll s ∷ ws) =
    ((s.role ≡ leader) × (s.current_term ≡ p.term) × (p.index ≤ s.commit_index)) ⊎ Saw p ws

-- A proposal is acknowledged with its own index, and only where a poll before any stop or timeout saw the node still leader of the same term with a commit index that has reached it.
pub await-Saw :
    (p : Proposal) (ws : List Wake) (i : ℕ) → await p ws ≡ some (ok i) → (i ≡ p.index) × Saw p ws
unfolding await
await-Saw p [] i h = cc
await-Saw p (stopped ∷ ws) i h = cc
await-Saw p (timed_out ∷ ws) i h = cc
await-Saw p (poll s ∷ ws) i h = ground (arith, await-Saw p ws i)

-- What a reply to a ballot must have been for the node to become leader.
pub record IsElected (s : RaftNode) (term votes votes' : ℕ) (reply : RequestVoteReply)
    : Type 0 where
  pub was_candidate : s.role ≡ candidate
  pub in_term : s.current_term ≡ term
  pub granted : reply.vote_granted ≡ true
  pub counted : votes' ≡ votes + 1
  pub majority : length s.peers + 1 < 2 * votes'

-- A node that is no leader becomes one on a reply only as a candidate of the ballots' term, by a granted vote, with more than half of the nodes counted.
pub on_vote_reply-IsElected :
    (s s' : RaftNode) (term votes votes' : ℕ) (reply : RequestVoteReply) (now : ℕ)
    {messages : List Outgoing}
    → s.role ≢ leader
    → on_vote_reply s term votes reply now ≡ some ((s', messages), votes')
    → s'.role ≡ leader
    → IsElected s term votes votes' reply
unfolding on_vote_reply step_down quorum
on_vote_reply-IsElected s s' term votes votes' reply now n h l = ground arith
