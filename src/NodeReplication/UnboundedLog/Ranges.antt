-- ===== src/NodeReplication/UnboundedLog/Ranges.antt =====
-- spec/unbounded_log.rs: what the entries of a range of the log have to do with the requests that a
-- combiner holds (`LogRangeNoNodeId`, `LogRangeMatchesQueue`, `QueueRidsUpdatePlaced` and others),
-- and what the steps do to it.
use verified_nrkernel.Prelude.{
  ℕ, zero, suc, ◌+◌, ◌≤◌, ◌<◌, ◌≡◌, ◌≢◌, ◌⊎◌, inl, inr, refl, sym, ◌∙◌, ap, Option, none, some,
  List, [], ◌∷◌, ◌++◌, arith, length, length-push, get_elem?, get_elem?-lt, get_elem?-push,
  if◌then◌else◌, ◌==◌, ℕ_discrete,
}
use mathlib.Core.Option.{some-injective}
use verified_nrkernel.NodeReplication.Dispatch.{NodeId, ReqId, LogIdx, Dispatch}
use verified_nrkernel.NodeReplication.UnboundedLog.{LogEntry, UpdateState, applied}

module _ {DT : Dispatch} where
  abbrev pub LogContainsEntriesUpToHere : (LogIdx → Option (LogEntry DT)) → LogIdx → Type 0
  LogContainsEntriesUpToHere log last =
      (i : LogIdx) → i < last → (e : LogEntry DT) × (log i ≡ some e)

  abbrev pub LogNoEntriesFromHere : (LogIdx → Option (LogEntry DT)) → LogIdx → Type 0
  LogNoEntriesFromHere log first = (i : LogIdx) → first ≤ i → log i ≡ none

  -- Every entry from `first` up to `last` is there and is another node's. (The source recurses from
  -- `first` upwards.)
  abbrev pub LogRangeNoNodeId : (LogIdx → Option (LogEntry DT)) → LogIdx → LogIdx → NodeId → Type 0
  LogRangeNoNodeId log first last node_id =
      (i : LogIdx)
      → first ≤ i
      → i < last
      → (e : LogEntry DT) × (log i ≡ some e) × (e.node_id ≢ node_id)

  -- The node's entries from `lower` up to `upper` are those of the queue from `queue_index` on.
  pub data LogRangeMatchesQueue (queue : List ReqId) (log : LogIdx → Option (LogEntry DT))
      (upper : LogIdx) (node_id : NodeId) (updates : ReqId → Option (UpdateState DT))
      : ℕ → LogIdx → Type 0 where
    at_end :
        {queue_index lower : ℕ}
        → lower ≡ upper
        → queue_index ≡ length queue
        → LogRangeMatchesQueue queue log upper node_id updates queue_index lower
    local :
        {queue_index lower : ℕ} (e : LogEntry DT) (rid : ReqId) (op : DT.WriteOperation)
        → lower < upper
        → log lower ≡ some e
        → e.node_id ≡ node_id
        → get_elem? queue queue_index ≡ some rid
        → updates rid ≡ some (UpdateState.placed op lower)
        → LogRangeMatchesQueue queue log upper node_id updates (queue_index + 1) (lower + 1)
        → LogRangeMatchesQueue queue log upper node_id updates queue_index lower
    remote :
        {queue_index lower : ℕ} (e : LogEntry DT)
        → lower < upper
        → log lower ≡ some e
        → e.node_id ≢ node_id
        → LogRangeMatchesQueue queue log upper node_id updates queue_index (lower + 1)
        → LogRangeMatchesQueue queue log upper node_id updates queue_index lower

  -- The update is in the log and not yet applied.
  abbrev pub IsPlaced : Option (UpdateState DT) → Type 0
  IsPlaced u = (op : DT.WriteOperation) × (idx : LogIdx) × (u ≡ some (UpdateState.placed op idx))

  -- The update has its answer.
  abbrev pub IsAppliedOrDone : UpdateState DT → Type 0
  IsAppliedOrDone u =
      (ret : DT.Response) × (idx : LogIdx) × ((u ≡ applied ret idx)
        ⊎ (u ≡ UpdateState.done ret idx))

  abbrev pub QueueRidsUpdateDone : List ReqId → (ReqId → Option (UpdateState DT)) → ℕ → Type 0
  QueueRidsUpdateDone queue updates bound =
      (j : ℕ) (rid : ReqId) (u : UpdateState DT)
      → j < bound
      → get_elem? queue j ≡ some rid
      → updates rid ≡ some u
      → IsAppliedOrDone u

  abbrev pub QueueRidsUpdatePlaced : List ReqId → (ReqId → Option (UpdateState DT)) → ℕ → Type 0
  QueueRidsUpdatePlaced queue updates bound =
      (j : ℕ) (rid : ReqId) → bound ≤ j → get_elem? queue j ≡ some rid → IsPlaced (updates rid)

  -- What a longer log keeps.
  abbrev pub Extends : (log log' : LogIdx → Option (LogEntry DT)) → Type 0
  Extends log log' = (i : LogIdx) (e : LogEntry DT) → log i ≡ some e → log' i ≡ some e

  -- What a change of the updates keeps of those that the queue holds from an index on.
  abbrev pub KeepsPlaced :
      List ReqId → ℕ → (updates updates' : ReqId → Option (UpdateState DT)) → Type 0
  KeepsPlaced queue q updates updates' =
      (j : ℕ) (rid : ReqId) (op : DT.WriteOperation) (idx : LogIdx)
      → q ≤ j
      → get_elem? queue j ≡ some rid
      → updates rid ≡ some (UpdateState.placed op idx)
      → updates' rid ≡ some (UpdateState.placed op idx)

abbrev pub SeqUnique : List ReqId → Type 0
SeqUnique queue =
    (i j : ℕ) (rid : ReqId) → get_elem? queue i ≡ some rid → get_elem? queue j ≡ some rid → i ≡ j

abbrev pub SeqDisjoint : List ReqId → List ReqId → Type 0
SeqDisjoint xs ys = (i j : ℕ) (rid : ReqId) → get_elem? xs i ≡ some rid → get_elem? ys j ≢ some rid

-- A pushed queue holds the pushed request and the old ones.
pub get_elem?-pushed :
    (queue : List ReqId) (r : ReqId) (i : ℕ) (rid : ReqId)
    → get_elem? (queue ++ r ∷ []) i ≡ some rid
    → ((i ≡ length queue) × (rid ≡ r)) ⊎ (get_elem? queue i ≡ some rid)
get_elem?-pushed queue r i rid h = elim (ℕ_discrete i (length queue)) [
  | yes e ↦ inl (e, some-injective _ _ (sym h ∙ get_elem?-push queue r i ∙ hit e))
  | no ne ↦ inr (sym (miss ne) ∙ sym (get_elem?-push queue r i) ∙ h)
]
  where
    hit : i ≡ length queue → (if i == length queue then some r else get_elem? queue i) ≡ some r
    hit e = ground arith

    miss :
        i ≢ length queue
        → (if i == length queue then some r else get_elem? queue i) ≡ get_elem? queue i
    miss ne = ground arith

pub get_elem?-push_kept :
    (queue : List ReqId) (r : ReqId) (i : ℕ) (rid : ReqId)
    → get_elem? queue i ≡ some rid
    → get_elem? (queue ++ r ∷ []) i ≡ some rid
get_elem?-push_kept queue r i rid h = get_elem?-push queue r i ∙ below (get_elem?-lt queue i h)
  where
    below : i < length queue → (if i == length queue then some r else get_elem? queue i) ≡ some rid
    below lt = ground arith

pub get_elem?-push_last :
    (queue : List ReqId) (r : ReqId) → get_elem? (queue ++ r ∷ []) (length queue) ≡ some r
get_elem?-push_last queue r = get_elem?-push queue r (length queue) ∙ hit
  where
    hit : (if length queue == length queue then some r else get_elem? queue (length queue)) ≡ some r
    hit = ground arith

module _ {DT : Dispatch} (node_id : NodeId) where
  module _ (log log' : LogIdx → Option (LogEntry DT))
      (updates updates' : ReqId → Option (UpdateState DT)) (ext : Extends log log') where
    -- A longer log and updates that keep the placed requests of the queue keep the match.
    pub LogRangeMatchesQueue-mono :
        (queue : List ReqId) (upper : LogIdx) {q lower : ℕ}
        → KeepsPlaced queue q updates updates'
        → LogRangeMatchesQueue queue log upper node_id updates q lower
        → LogRangeMatchesQueue queue log' upper node_id updates' q lower
    LogRangeMatchesQueue-mono queue upper k (at_end h1 h2) = at_end h1 h2
    LogRangeMatchesQueue-mono queue upper {q} {lower} k (local e rid op h1 h2 h3 h4 h5 m) =
        local e rid op h1 (ext lower e h2) h3 h4 (k q rid op lower (omega arith) h4 h5)
          (LogRangeMatchesQueue-mono queue upper (λ j r o i le. k j r o i (omega arith)) m)
    LogRangeMatchesQueue-mono queue upper {q} {lower} k (remote e h1 h2 h3 m) =
        remote e h1 (ext lower e h2) h3 (LogRangeMatchesQueue-mono queue upper k m)

    -- The node's own entry, pushed on the log, with its request pushed on the queue.
    pub LogRangeMatchesQueue-push_local :
        (queue : List ReqId) (upper : LogIdx) (e : LogEntry DT) (rid : ReqId)
        (op : DT.WriteOperation) {q lower : ℕ}
        → KeepsPlaced queue q updates updates'
        → log' upper ≡ some e
        → e.node_id ≡ node_id
        → updates' rid ≡ some (UpdateState.placed op upper)
        → LogRangeMatchesQueue queue log upper node_id updates q lower
        → LogRangeMatchesQueue (queue ++ rid ∷ []) log' (upper + 1) node_id updates' q lower
    LogRangeMatchesQueue-push_local queue upper e rid op {q} {lower} k g1 g2 g3 (at_end h1 h2) =
        local e rid op (omega arith) (ap log' h1 ∙ g1) g2
          (ap (get_elem? (queue ++ rid ∷ [])) h2 ∙ get_elem?-push_last queue rid)
          (g3 ∙ ap (λ i. some (UpdateState.placed op i)) (sym h1))
          (at_end (omega arith) (omega (arith, length-push queue rid)))
    LogRangeMatchesQueue-push_local queue upper e rid op {q} {lower} k g1 g2 g3
          (local e0 r0 o0 h1 h2 h3 h4 h5 m) =
        local e0 r0 o0 (omega arith) (ext lower e0 h2) h3 (get_elem?-push_kept queue rid q r0 h4)
          (k q r0 o0 lower (omega arith) h4 h5)
          (LogRangeMatchesQueue-push_local queue upper e rid op
            (λ j r o i le. k j r o i (omega arith)) g1 g2 g3 m)
    LogRangeMatchesQueue-push_local queue upper e rid op {q} {lower} k g1 g2 g3
          (remote e0 h1 h2 h3 m) =
        remote e0 (omega arith) (ext lower e0 h2) h3
          (LogRangeMatchesQueue-push_local queue upper e rid op k g1 g2 g3 m)

    -- Another node's entry, pushed on the log.
    pub LogRangeMatchesQueue-push_remote :
        (queue : List ReqId) (upper : LogIdx) (e : LogEntry DT) {q lower : ℕ}
        → KeepsPlaced queue q updates updates'
        → log' upper ≡ some e
        → e.node_id ≢ node_id
        → LogRangeMatchesQueue queue log upper node_id updates q lower
        → LogRangeMatchesQueue queue log' (upper + 1) node_id updates' q lower
    LogRangeMatchesQueue-push_remote queue upper e k g1 g2 (at_end h1 h2) =
        remote e (omega arith) (ap log' h1 ∙ g1) g2 (at_end (omega arith) h2)
    LogRangeMatchesQueue-push_remote queue upper e {q} {lower} k g1 g2
          (local e0 r0 o0 h1 h2 h3 h4 h5 m) =
        local e0 r0 o0 (omega arith) (ext lower e0 h2) h3 h4 (k q r0 o0 lower (omega arith) h4 h5) (
          LogRangeMatchesQueue-push_remote queue upper e (λ j r o i le. k j r o i (omega arith)) g1
            g2 m)
    LogRangeMatchesQueue-push_remote queue upper e {q} {lower} k g1 g2 (remote e0 h1 h2 h3 m) =
        remote e0 (omega arith) (ext lower e0 h2) h3
          (LogRangeMatchesQueue-push_remote queue upper e k g1 g2 m)

    pub LogRangeNoNodeId-push :
        (first last : LogIdx) (e : LogEntry DT)
        → log' last ≡ some e
        → e.node_id ≢ node_id
        → LogRangeNoNodeId log first last node_id
        → LogRangeNoNodeId log' first (last + 1) node_id
    LogRangeNoNodeId-push first last e h ne r i le lt = elim (ℕ_discrete i last) [
      | yes same ↦ (e, ap log' same ∙ h, ne)
      | no differ ↦ let (e0, h0, ne0) = r i le (omega arith) in (e0, ext i e0 h0, ne0)
    ]

  module _ (log : LogIdx → Option (LogEntry DT)) (updates : ReqId → Option (UpdateState DT)) where
    -- A range with none of the node's entries matches the empty queue.
    pub LogRangeNoNodeId-Matches :
        (gap lower upper : ℕ)
        → lower + gap ≡ upper
        → LogRangeNoNodeId log lower upper node_id
        → LogRangeMatchesQueue [] log upper node_id updates 0 lower
    LogRangeNoNodeId-Matches zero lower upper h r = at_end (omega arith) refl
    LogRangeNoNodeId-Matches (suc gap) lower upper h r =
        let (e, h1, ne) = r lower (omega arith) (omega arith) in
        remote e (omega arith) h1 ne (
          LogRangeNoNodeId-Matches gap (lower + 1) upper (omega arith)
            (λ i le lt. r i (omega arith) lt))

    -- At the end of the range the queue is used up.
    pub matches_at_end :
        (queue : List ReqId) (upper : LogIdx) {q lower : ℕ}
        → lower ≡ upper
        → LogRangeMatchesQueue queue log upper node_id updates q lower
        → q ≡ length queue
    matches_at_end queue upper h (at_end h1 h2) = h2
    matches_at_end queue upper h (local e rid op h1 h2 h3 h4 h5 m) = absurd (omega arith)
    matches_at_end queue upper h (remote e h1 h2 h3 m) = absurd (omega arith)

    -- The request that an own entry belongs to is the next of the queue.
    pub matches_local :
        (queue : List ReqId) (upper : LogIdx) (e : LogEntry DT) {q lower : ℕ}
        → lower < upper
        → log lower ≡ some e
        → e.node_id ≡ node_id
        → LogRangeMatchesQueue queue log upper node_id updates q lower
        → (rid : ReqId) × (op : DT.WriteOperation) × (get_elem? queue q ≡ some rid)
          × (updates rid ≡ some (UpdateState.placed op lower))
          × LogRangeMatchesQueue queue log upper node_id updates (q + 1) (lower + 1)
    matches_local queue upper e lt h own (at_end h1 h2) = absurd (omega arith)
    matches_local queue upper e lt h own (local e0 rid op h1 h2 h3 h4 h5 m) = (rid, op, h4, h5, m)
    matches_local queue upper e lt h own (remote e0 h1 h2 h3 m) =
        let same : e0 ≡ e = some-injective _ _ (sym h2 ∙ h) in
        absurd (h3 (ap (λ x. x.node_id) same ∙ own))

    -- Another node's entry leaves the queue where it is.
    pub matches_remote :
        (queue : List ReqId) (upper : LogIdx) (e : LogEntry DT) {q lower : ℕ}
        → lower < upper
        → log lower ≡ some e
        → e.node_id ≢ node_id
        → LogRangeMatchesQueue queue log upper node_id updates q lower
        → LogRangeMatchesQueue queue log upper node_id updates q (lower + 1)
    matches_remote queue upper e lt h other (at_end h1 h2) = absurd (omega arith)
    matches_remote queue upper e lt h other (local e0 rid op h1 h2 h3 h4 h5 m) =
        let same : e0 ≡ e = some-injective _ _ (sym h2 ∙ h) in
        absurd (other (ap (λ x. x.node_id) (sym same) ∙ h3))
    matches_remote queue upper e lt h other (remote e0 h1 h2 h3 m) = m
