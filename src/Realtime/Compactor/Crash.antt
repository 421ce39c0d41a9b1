-- ===== src/Realtime/Compactor/Crash.antt =====
-- A compaction that stops anywhere leaves a board that loads the same document.
use hamboom.Realtime.Compactor.Fold.{apply_all-append, split_at}
use hamboom.Base.Dict.{get}
use hamboom.Realtime.Compactor.{
  Outcome, compact, compact_from, compact_over, perform_all, document, apply_all, from_seq, Yjs,
  apply_all, document, Effect, perform_all,
}
use hamboom.Base.{
  ◌≤◌, if_split, leb, ℕ, ◌<◌, ◌≡◌, ◌∙◌, sym, refl, ap, subst, false, String, Option, none, some,
  List, arith, if_split,
}
use hamboom.Realtime.Stores.{
  entries, load, since, latest, Bytes, entries, SnapshotRecord, Stores, since, latest, load,
  load_from,
}
use hamboom.Realtime.Compactor.Folded.{loaded_row, take, IsSound, doc_of, loaded}
use hamboom.Realtime.Compactor.Write.{unwritten-loaded, write-loaded}

module _ (y : Yjs) (board : String) (target : ℕ) (s : Stores) (n : ℕ)
    (restores : (d : y.Doc)
      → y.has_pending_structs d ≡ false
      → y.apply_update y.new_doc (y.encode_state_as_update d) ≡ d)
    (sound : IsSound board s) where
  -- The updates up to the target, then the rest, are all that come after the start.
  split :
      (d : y.Doc) (start : ℕ)
      → start ≤ target
      → apply_all y
          (apply_all y d (since board start (some target) s.log))
          (since board target none s.log)
        ≡ apply_all y d (since board start none s.log)
  unfolding since
  split d start l =
      apply_all-append y d _ _
      ∙ ap (apply_all y d) (split_at 0 start target (entries board s.log) sound.rising l)

  abbrev Same : Outcome × List Effect → Type 0
  Same o = loaded y board (perform_all (take n o.1) s) ≡ loaded y board s

  over-loaded :
      (row : SnapshotRecord) (o : Option Bytes)
      → latest board s.catalog ≡ some row
      → get row.storage_key s.objects ≡ o
      → row.seq_upto < target
      → Same (compact_over y row o board target s)
  unfolding compact_over loaded load
  over-loaded row none e found l = unwritten-loaded y board s n
  over-loaded row (some base) e found l =
      write-loaded y board target _ s sound (subst (λ o. from_seq o < target) (sym e) l) n
        (restores _)
        (ap (λ o. doc_of y board (load_from board s.log o s.objects)) e
          ∙ (loaded_row y board s.log s.objects row base found
              ∙ ap some (sym (split _ row.seq_upto (omega (arith, l))))))

  from-loaded :
      (o : Option SnapshotRecord)
      → latest board s.catalog ≡ o
      → from_seq o < target
      → Same (compact_from y o board target s)
  unfolding compact_from loaded load load_from document
  from-loaded none e l =
      write-loaded y board target _ s sound (subst (λ o. from_seq o < target) (sym e) l) n
        (restores _)
        (ap (λ o. doc_of y board (load_from board s.log o s.objects)) e
          ∙ ap some (sym (split y.new_doc 0 (omega (arith, l)))))
  from-loaded (some row) e l = over-loaded row _ e refl l

  -- Wherever a compaction stops, after any number of its writes, the board loads the document that
  -- it loaded before, if the log's sequence numbers rise and every snapshot lies under the key of
  -- its row. Of Yjs this needs that a document without missing updates is restored by its encoding.
  pub compact-loaded :
      loaded y board (perform_all (take n (compact y board target s).1) s) ≡ loaded y board s
  unfolding compact
  compact-loaded =
      if_split Same (leb target (from_seq (latest board s.catalog)))
        (λ _. unwritten-loaded y board s n)
        (λ e. from-loaded (latest board s.catalog) refl (ground (arith, e)))
