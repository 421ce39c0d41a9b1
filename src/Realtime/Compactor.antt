-- ===== src/Realtime/Compactor.antt =====
-- apps/realtime/src/persistence/compactor.ts: folding the updates of a board into a snapshot. What
-- a compaction writes is a list of effects in the order of the code, so that a crash in the middle
-- is a prefix of it. Yjs is a parameter.
pub mod Fold
pub mod Folded
pub mod Write
pub mod Crash
pub mod Kept
pub mod Durable
mod Tests
use hamboom.Base.{
  ℕ, zero, suc, ◌+◌, ◌-◌, ◌≡◌, Bool, true, false, not, ◌&&◌, ◌||◌, String, Option, none, some, List,
  [], ◌∷◌, ◌++◌, length, leb, ltb, ◌==◌, if◌then◌else◌, all,
}
use hamboom.Base.Int.{ℤ, ltb_ℤ, pos}
use hamboom.Base.Dict.{Dict, get, put, remove}
use hamboom.Realtime.Keys.{snapshot_key}
use hamboom.Realtime.Stores.{
  Bytes, Stores, SnapshotRecord, BoardSnapshot, UpdateLog, since, prune, latest, older, record_row,
  forget, or_zero,
}

-- The library Yjs, as far as the service relies on it: documents, the update that encodes one
-- whole, its state vector, and whether updates wait in it for others that are missing.
pub record Yjs : Type 1 where
  pub Doc : Type 0
  pub new_doc : Doc
  pub apply_update : Doc → Bytes → Doc
  pub encode_state_as_update : Doc → Bytes
  pub encode_state_vector : Doc → Bytes
  pub element_count : Doc → ℕ
  pub has_pending_structs : Doc → Bool

pub record Thresholds : Type 0 where
  pub every_updates : ℕ
  pub every_ms : ℕ

-- `shouldCompact`: nothing new is never folded; else by the count or by the age.
unfoldable pub should_compact : Thresholds → (seq since_seq since_at now : ℕ) → Bool
should_compact thresholds seq since_seq since_at now =
    if leb seq since_seq
    then false
    else leb (since_seq + thresholds.every_updates) seq || leb (since_at + thresholds.every_ms) now

unfoldable pub same_bytes : Bytes → Bytes → Bool
same_bytes [] [] = true
same_bytes (x ∷ xs) (z ∷ zs) = (x == z) && same_bytes xs zs
same_bytes _ _ = false

pub data Effect : Type 0 where
  puts : (key : String) (bytes : Bytes) → Effect
  records : (board : String) → SnapshotRecord → Effect
  prunes : (board : String) (upto : ℕ) → Effect
  deletes : (key : String) → Effect
  forgets : (board : String) (seq : ℕ) → Effect

unfoldable pub perform : Effect → Stores → Stores
unfolding put remove record_row prune forget
perform (puts key bytes) s = record s { objects = put key bytes s.objects }
perform (records board row) s = record s { catalog = record_row board row s.catalog }
perform (prunes board upto) s = record s { log = (prune board upto s.log).1 }
perform (deletes key) s = record s { objects = remove key s.objects }
perform (forgets board seq) s = record s { catalog = forget board seq s.catalog }

unfoldable pub perform_all : List Effect → Stores → Stores
perform_all [] s = s
perform_all (e ∷ es) s = perform_all es (perform e s)

pub record CompactionResult : Type 0 where
  pub seq_upto : ℕ
  pub byte_size : ℕ
  pub element_count : ℕ
  pub pruned : ℕ

-- How a compaction ends: nothing to do, a snapshot that cannot be read, a document that is not
-- whole (these three return null), a write that does not read back (throws), or done.
pub data Outcome : Type 0 where
  nothing unreadable incomplete unwritten : Outcome
  compacted : CompactionResult → Outcome

-- the loop over the older snapshots
unfoldable pub drop_stale : String → List SnapshotRecord → List Effect
drop_stale board [] = []
drop_stale board (row ∷ rest) =
    deletes row.storage_key ∷ forgets board row.seq_upto ∷ drop_stale board rest

abbrev pub from_seq : Option SnapshotRecord → ℕ
from_seq none = 0
from_seq (some row) = row.seq_upto

module _ (y : Yjs) where
  unfoldable pub apply_all : y.Doc → List Bytes → y.Doc
  apply_all doc [] = doc
  apply_all doc (u ∷ us) = apply_all (y.apply_update doc u) us

  -- The document of a board that is loaded: the snapshot, then the updates in order.
  unfoldable pub document : BoardSnapshot → y.Doc
  unfolding apply_all
  document b = elim b.snapshot [
    | none ↦ apply_all y.new_doc b.updates
    | some bytes ↦ apply_all (y.apply_update y.new_doc bytes) b.updates
  ]

  abbrev pub row_of : String → ℕ → y.Doc → SnapshotRecord
  row_of board target doc = record {
    seq_upto = target;
    storage_key = snapshot_key board target;
    state_vector = y.encode_state_vector doc;
    byte_size = length (y.encode_state_as_update doc);
    element_count = y.element_count doc;
  }

  -- the writes after the one of the snapshot, once it was read back
  unfoldable pub finish : String → ℕ → y.Doc → Stores → Outcome × List Effect
  unfolding drop_stale perform prune older
  finish board target doc s =
      let recorded : Stores = perform (records board (row_of board target doc)) s in
      let pruned : Stores = perform (prunes board target) recorded in
      (
        compacted (record {
          seq_upto = target;
          byte_size = length (y.encode_state_as_update doc);
          element_count = y.element_count doc;
          pruned = (prune board target recorded.log).0;
        }),
        records board (row_of board target doc)
            ∷ prunes board target
            ∷ drop_stale board (older board target pruned.catalog),
      )

  -- the snapshot as it is read back: missing, or another document than the one that was written
  unfoldable pub reads_back : Option Bytes → y.Doc → Bool
  unfolding same_bytes
  reads_back none doc = false
  reads_back (some written) doc =
      same_bytes (y.encode_state_vector (y.apply_update y.new_doc written))
        (y.encode_state_vector doc)

  unfoldable pub write : String → ℕ → y.Doc → Stores → Outcome × List Effect
  unfolding reads_back finish get
  write board target doc s =
      let key : String = snapshot_key board target in
      let put_ : Effect = puts key (y.encode_state_as_update doc) in
      let stored : Stores = perform put_ s in
      let rest = finish board target doc stored in
      if y.has_pending_structs doc
      then (incomplete, [])
      else if not (reads_back (get key stored.objects) doc)
      then (unwritten, put_ ∷ [])
      else (rest.0, put_ ∷ rest.1)

  -- given the newest row and its snapshot
  unfoldable pub compact_over :
      SnapshotRecord → Option Bytes → String → ℕ → Stores → Outcome × List Effect
  unfolding write since apply_all
  compact_over previous none board target s = (unreadable, [])
  compact_over previous (some base) board target s =
      write board target
        (apply_all (y.apply_update y.new_doc base)
          (since board previous.seq_upto (some target) s.log))
        s

  unfoldable pub compact_from : Option SnapshotRecord → String → ℕ → Stores → Outcome × List Effect
  unfolding write get since apply_all compact_over
  compact_from none board target s =
      write board target (apply_all y.new_doc (since board 0 (some target) s.log)) s
  compact_from (some previous) board target s =
      compact_over previous (get previous.storage_key s.objects) board target s

  -- `compact`: how it ends and what it writes
  unfoldable pub compact : String → ℕ → Stores → Outcome × List Effect
  unfolding compact_from latest
  compact board target s =
      let previous = latest board s.catalog in
      if leb target (from_seq previous) then (nothing, []) else compact_from previous board target s
