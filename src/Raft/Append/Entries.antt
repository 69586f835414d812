-- ===== src/Raft/Append/Entries.antt =====
-- The loop over the entries of a request (raft/consensus.go, `HandleAppendEntries`): what it leaves of
-- the log.
use aegis_log.Common.{
  ℕ, suc, ◌+◌, ◌-◌, ◌^◌, ◌≤◌, ◌<◌, ◌≡◌, refl, ap, arith, some, List, [], ◌∷◌, length, ◌∙◌, inl, ◌⊎◌,
  u64,
}
use aegis_log.Raft.Types.{LogEntry, RaftNode}
use aegis_log.Raft.Node.{term_of}
use aegis_log.Raft.Handlers.{put_entry, put_entries}
use aegis_log.Raft.Log.{Indexed, IsWellFormed}
use aegis_log.Raft.Append.Put.{
  Anchored-ext, with_log, Extends, HasTerm, Kept, AgreesAt, IsPut, put_entry-IsPut,
}

Kept-length : (before after : List LogEntry) → Kept before after → length before ≤ length after
Kept-length [] after k = omega arith
Kept-length (b ∷ bs) [] k = cc (k 0 (omega arith))
Kept-length (b ∷ bs) (a ∷ as') k =
    omega (arith, Kept-length bs as' (λ j lt. k (suc j) (omega arith)))

-- The same for every entry of a request.
abbrev pub Agrees : ℕ → List LogEntry → ℕ → List LogEntry → Type 0
Agrees base log idx [] = Unit {0}
Agrees base log idx (e ∷ es) = AgreesAt base log idx e.term × Agrees base log (suc idx) es

-- A log that only grew at indices below `idx` agrees with what the old one agreed with.
Agrees-Kept :
    (base : ℕ) (before after : List LogEntry) (idx : ℕ) (es : List LogEntry)
    → base ≤ idx
    → Kept before after
    → (length after ≤ length before) ⊎ (base + length after ≤ idx)
    → Agrees base before idx es
    → Agrees base after idx es
unfolding term_of
Agrees-Kept base before after idx [] lo k b h = tt
Agrees-Kept base before after idx (e ∷ es) lo k b h = (
  λ lt.
      let lt' : idx < base + length before = omega arith in
      rw (k (idx - base) (omega arith)) (h.0 lt'),
  Agrees-Kept base before after (suc idx) es (omega arith) k (omega arith) h.1,
)

-- What the loop leaves: a well-formed log, unchanged below `idx`, that holds every entry's term.
abbrev pub AllStored : ℕ → ℕ → List LogEntry → List LogEntry → Type 0
AllStored base idx [] after = Unit {0}
AllStored base idx (e ∷ es) after =
    HasTerm base after idx e.term × AllStored base (suc idx) es after

pub record IsPutAll (s : RaftNode) (idx : ℕ) (es after : List LogEntry) : Type 0 where
  pub extends : Extends s (idx - s.last_included_index) after
  pub reaches : idx + length es ≤ s.last_included_index + length after
  pub bounded :
      (length after ≤ length s.log) ⊎ (s.last_included_index + length after ≡ idx + length es)
  pub stored : AllStored s.last_included_index idx es after
  pub grows : Agrees s.last_included_index s.log idx es → Kept s.log after

pub with_log-IsWellFormed :
    (s : RaftNode) (idx : ℕ) (after : List LogEntry)
    → IsWellFormed s
    → s.last_included_index < idx
    → Extends s (idx - s.last_included_index) after
    → s.last_included_index + length after ≤ 2 ^ 63
    → IsWellFormed (with_log s after)
with_log-IsWellFormed s idx after w lo x r = record {
  indexed = x.indexed;
  anchored = Anchored-ext _ s.log after w.anchored (x.below 0 (omega arith));
  in_range = r;
  committed = w.committed;
  applied = w.applied;
}

IsPutAll-cons :
    (s : RaftNode) (idx : ℕ) (e : LogEntry) (es mid after : List LogEntry)
    → s.last_included_index < idx
    → IsPut s idx e mid
    → IsPutAll (with_log s mid) (suc idx) es after
    → IsPutAll s idx (e ∷ es) after
unfolding term_of
IsPutAll-cons s idx e es mid after lo m a = record {
  extends = record {
    indexed = a.extends.indexed;
    below = λ j lt. a.extends.below j (omega arith) ∙ m.extends.below j lt;
  };
  reaches = omega (arith, a.reaches);
  bounded = ground (arith, m.bounded, a.bounded, m.reaches, a.reaches);
  stored = (rw (a.extends.below (idx - s.last_included_index) (omega arith)) m.stored, a.stored);
  grows = λ agree j lt.
      let k : Kept s.log mid = m.grows agree.0 in
      let r : length s.log ≤ length mid = Kept-length s.log mid k in
      a.grows
        (Agrees-Kept s.last_included_index s.log mid (suc idx) es (omega arith) k
          (omega (arith, m.bounded)) agree.1)
        j (omega arith)
      ∙ k j lt;
}

put_entries-nil : (s : RaftNode) (idx : ℕ) → put_entries s idx [] ≡ some s
unfolding put_entries
put_entries-nil s idx = refl

put_entries-cons :
    (s s' : RaftNode) (idx : ℕ) (e : LogEntry) (es : List LogEntry)
    → put_entry s idx e ≡ some s'
    → idx < 2 ^ 63
    → put_entries s idx (e ∷ es) ≡ put_entries s' (suc idx) es
unfolding put_entries
put_entries-cons s s' idx e es p h =
    rw p (ap (λ n. put_entries s' n es) (let next : u64 (idx + 1) ≡ suc idx = omega arith in next))

-- The loop ends without a fault on every well-formed node that holds the entry before `idx`.
pub put_entries-IsPutAll :
    (es : List LogEntry) (s : RaftNode) (idx : ℕ)
    → IsWellFormed s
    → s.last_included_index < idx
    → idx ≤ s.last_included_index + length s.log
    → idx + length es ≤ 2 ^ 63
    → Indexed idx es
    → (after : List LogEntry) × (put_entries s idx es ≡ some (with_log s after))
      × IsPutAll s idx es after
put_entries-IsPutAll [] s idx w lo hi r x = (
  s.log,
  put_entries-nil s idx,
  record {
    extends = record { indexed = w.indexed; below = λ j lt. refl };
    reaches = omega arith;
    bounded = inl (omega arith);
    stored = tt;
    grows = λ _ j lt. refl;
  },
)
put_entries-IsPutAll (e ∷ es) s idx w lo hi r x =
    let (mid, p, m) = put_entry-IsPut s e idx w lo hi x.0 in
    let w' : IsWellFormed (with_log s mid) =
      with_log-IsWellFormed s idx mid w lo m.extends (omega (arith, m.bounded, w.in_range)) in
    let (after, q, a) =
      put_entries-IsPutAll es (with_log s mid) (suc idx) w' (omega arith) (omega (arith, m.reaches))
        (omega arith) x.1 in
    (
      after,
      put_entries-cons s (with_log s mid) idx e es p (omega arith) ∙ q,
      IsPutAll-cons s idx e es mid after lo m a,
    )
