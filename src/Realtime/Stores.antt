-- ===== src/Realtime/Stores.antt =====
-- apps/realtime/src/persistence: the log of updates (update-log.ts), the store of snapshots
-- (snapshot-store.ts) and their catalog (snapshot-catalog.ts), each with its implementation in
-- memory, and what a board is loaded from (apps/realtime/src/store/persisted-board-store.ts).
use hamboom.Base.{
  ℕ, ◌+◌, ◌-◌, Bool, not, ◌&&◌, String, Option, none, some, List, [], ◌∷◌, ◌++◌, map, length,
  filterb, leb, ltb, ◌==◌, if◌then◌else◌,
}
use hamboom.Base.Dict.{Dict, get, put}

-- `Uint8Array`
abbrev pub Bytes : Type 0
Bytes = List ℕ

pub record Entry : Type 0 where
  pub payload : Bytes
  pub seq : ℕ

pub record UpdateLog : Type 0 where
  pub logs : Dict (List Entry)
  pub high_water : Dict ℕ

-- `x ?? []` and `x ?? 0`
abbrev pub or_nil {ℓ} : {A : Type ℓ} → Option (List A) → List A
or_nil none = []
or_nil (some xs) = xs

abbrev pub or_zero : Option ℕ → ℕ
or_zero none = 0
or_zero (some n) = n

abbrev pub entries : String → UpdateLog → List Entry
entries board log = or_nil (get board log.logs)

unfoldable pub append : String → Bytes → UpdateLog → ℕ × UpdateLog
unfolding get put
append board payload log =
    let seq : ℕ = or_zero (get board log.high_water) + 1 in
    (
      seq,
      record {
        logs =
            put board (entries board log ++ (record { payload = payload; seq = seq } ∷ []))
              log.logs;
        high_water = put board seq log.high_water;
      },
    )

-- `upto` is none for the default, infinity.
abbrev pub within : ℕ → Option ℕ → Entry → Bool
within after none e = ltb after e.seq
within after (some upto) e = ltb after e.seq && leb e.seq upto

abbrev pub payloads : List Entry → List Bytes
payloads = map λ e. e.payload

unfoldable pub since : String → ℕ → Option ℕ → UpdateLog → List Bytes
unfolding get
since board after upto log = payloads (filterb (within after upto) (entries board log))

unfoldable pub latest_seq : String → UpdateLog → ℕ
unfolding get
latest_seq board log = or_zero (get board log.high_water)

unfoldable pub prune : String → ℕ → UpdateLog → ℕ × UpdateLog
unfolding get put
prune board upto log =
    let kept : List Entry = filterb (λ e. ltb upto e.seq) (entries board log) in
    (length (entries board log) - length kept, record log { logs = put board kept log.logs })

pub record SnapshotRecord : Type 0 where
  pub seq_upto : ℕ
  pub storage_key : String
  pub state_vector : Bytes
  pub byte_size : ℕ
  pub element_count : ℕ

abbrev pub SnapshotCatalog : Type 0
SnapshotCatalog = Dict (List SnapshotRecord)

abbrev pub rows : String → SnapshotCatalog → List SnapshotRecord
rows board c = or_nil (get board c)

unfoldable pub record_row : String → SnapshotRecord → SnapshotCatalog → SnapshotCatalog
unfolding get put
record_row board row c = put board (rows board c ++ (row ∷ [])) c

-- the callback of `reduce`
unfoldable pub top_of : Option SnapshotRecord → SnapshotRecord → Option SnapshotRecord
top_of none row = some row
top_of (some top) row = if ltb top.seq_upto row.seq_upto then some row else some top

unfoldable pub top_row : Option SnapshotRecord → List SnapshotRecord → Option SnapshotRecord
unfolding top_of
top_row top [] = top
top_row top (row ∷ rest) = top_row (top_of top row) rest

unfoldable pub latest : String → SnapshotCatalog → Option SnapshotRecord
unfolding top_row get
latest board c = top_row none (rows board c)

unfoldable pub older : String → ℕ → SnapshotCatalog → List SnapshotRecord
unfolding get
older board keep_from c = filterb (λ row. ltb row.seq_upto keep_from) (rows board c)

unfoldable pub forget : String → ℕ → SnapshotCatalog → SnapshotCatalog
unfolding get put
forget board seq c = put board (filterb (λ row. not (row.seq_upto == seq)) (rows board c)) c

pub record Stores : Type 0 where
  pub log : UpdateLog
  pub objects : Dict Bytes
  pub catalog : SnapshotCatalog

pub record BoardSnapshot : Type 0 where
  pub snapshot : Option Bytes
  pub updates : List Bytes
  pub seq_upto : ℕ

-- what `load` does with the bytes it found for a row; none is the error of a missing object
unfoldable pub load_found :
    String → UpdateLog → SnapshotRecord → Option Bytes → Option BoardSnapshot
unfolding since
load_found board log row none = none
load_found board log row (some bytes) = some (record {
  snapshot = some bytes;
  updates = since board row.seq_upto none log;
  seq_upto = row.seq_upto;
})

unfoldable pub load_from :
    String → UpdateLog → Option SnapshotRecord → Dict Bytes → Option BoardSnapshot
unfolding get since load_found
load_from board log none objects =
    some (record { snapshot = none; updates = since board 0 none log; seq_upto = 0 })
load_from board log (some row) objects = load_found board log row (get row.storage_key objects)

-- `load` of `createPersistedBoardStore`, given both stores of snapshots
unfoldable pub load : String → Stores → Option BoardSnapshot
unfolding load_from latest
load board s = load_from board s.log (latest board s.catalog) s.objects
