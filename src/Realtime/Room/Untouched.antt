-- ===== src/Realtime/Room/Untouched.antt =====
-- A session whose role does not write leaves the document and the log alone.
use hamboom.Base.{
  ℕ, ◌≡◌, refl, Bool, false, ◌&&◌, Option, none, some, if_both, Bool-cases, inl, inr,
}
use hamboom.Auth.Roles.{BoardRole, role_name, may_write_document}
use hamboom.Schema.Protocol.{
  Bytes, Decoded, unknown, corrupt, message, sync, awareness, auth_refresh, permission, room_info,
  ephemeral, hb_error, decode_message,
}
use hamboom.Realtime.Presence.{owns_client}
use hamboom.Realtime.Room.{Platform, Session, Node, wire_document, tell_presence}
use hamboom.Realtime.Room.Messages.{
  may_write, may_tell, is_write, is_empty_update, sync_read, handle_sync, handle_ephemeral,
  handle_decoded, handle_message, deny_write,
}
use hamboom.Realtime.Room.Events.{or_same}

-- What y-protocols promises: a message of another kind than the two that carry changes leaves the
-- document, and nothing of it has changed.
abbrev pub IsReadOnly : Platform → Type 0
IsReadOnly P =
    (kind : ℕ) (payload rest : Bytes) (doc : P.yjs.Doc) (r : P.yjs.Doc × Option Bytes × Bytes)
    → P.lib0.read_uint payload ≡ some (kind, rest)
    → is_write P kind ≡ false
    → P.yjs.read_sync payload doc ≡ some r
    → (r.0 ≡ doc) × (r.1 ≡ none)

abbrev pub writes_as : BoardRole → Bool
writes_as role = may_write_document (some (role_name role))

module _ {P : Platform} where
  -- The document and the log are as before, and no write of the log has begun.
  pub record Untouched (before after : Node P) : Type 0 where
    pub doc : after.room.doc ≡ before.room.doc
    pub log : after.log ≡ before.log
    pub in_flight : after.in_flight ≡ before.in_flight

  Untouched-refl : (n : Node P) → Untouched n n
  Untouched-refl n = record { doc = refl; log = refl; in_flight = refl }

  abbrev UntouchedIf : Node P → Option (Node P) → Type 0
  UntouchedIf n none = Unit
  UntouchedIf n (some m) = Untouched n m

  sync_read-Untouched :
      (s : Session) (o : Option (P.yjs.Doc × Option Bytes × Bytes)) (n : Node P)
      → ((r : P.yjs.Doc × Option Bytes × Bytes) → o ≡ some r → (r.0 ≡ n.room.doc) × (r.1 ≡ none))
      → UntouchedIf n (sync_read s o n)
  unfolding sync_read wire_document
  sync_read-Untouched s none n h = tt
  sync_read-Untouched s (some (doc, changed, reply)) n h =
      let same = h (doc, changed, reply) refl in
      rw same.1 (record { doc = same.0; log = refl; in_flight = refl })

  module _ (law : IsReadOnly P) (s : Session) (reads : may_write s ≡ false) where
    handle_sync-Untouched :
        (payload : Bytes) (o : Option (ℕ × Bytes)) (n : Node P)
        → P.lib0.read_uint payload ≡ o
        → UntouchedIf n (handle_sync s payload o n)
    unfolding handle_sync deny_write
    handle_sync-Untouched payload none n e = tt
    handle_sync-Untouched payload (some (kind, rest)) n e = elim (Bool-cases (is_write P kind)) [
      | inl write ↦
          rw (write, reads)
            (if_both (Untouched n) (is_empty_update P rest) (Untouched-refl n)
              (record { doc = refl; log = refl; in_flight = refl }))
      | inr read ↦ rw read (
          sync_read-Untouched s (P.yjs.read_sync payload n.room.doc) n
            (λ r f. law kind payload rest n.room.doc r e read f))
    ]

    handle_decoded-Untouched :
        (bytes : Bytes) (d : Decoded) (n : Node P) → UntouchedIf n (handle_decoded s bytes d n)
    unfolding handle_decoded handle_ephemeral tell_presence
    handle_decoded-Untouched bytes unknown n = Untouched-refl n
    handle_decoded-Untouched bytes (corrupt _) n = tt
    handle_decoded-Untouched bytes (message (awareness payload)) n =
        if_both (Untouched n) (may_tell s) (record { doc = refl; log = refl; in_flight = refl })
          (Untouched-refl n)
    handle_decoded-Untouched bytes (message (ephemeral client_id _)) n =
        if_both (Untouched n) (may_tell s && owns_client s.id client_id n.room.present)
          (record { doc = refl; log = refl; in_flight = refl }) (Untouched-refl n)
    handle_decoded-Untouched bytes (message (sync payload)) n =
        handle_sync-Untouched payload (P.lib0.read_uint payload) n refl
    handle_decoded-Untouched bytes (message (auth_refresh _)) n = Untouched-refl n
    handle_decoded-Untouched bytes (message (permission _)) n = Untouched-refl n
    handle_decoded-Untouched bytes (message (room_info _ _ _)) n = Untouched-refl n
    handle_decoded-Untouched bytes (message (hb_error _ _)) n = Untouched-refl n

    or_same-Untouched :
        (o : Option (Node P)) (n : Node P) → UntouchedIf n o → Untouched n (or_same o n)
    or_same-Untouched none n h = Untouched-refl n
    or_same-Untouched (some m) n h = h

    pub handle_message-Untouched :
        (bytes : Bytes) (n : Node P) → Untouched n (or_same (handle_message s bytes n) n)
    unfolding handle_message
    handle_message-Untouched bytes n =
        or_same-Untouched (handle_decoded s bytes (decode_message P.lib0 bytes) n) n
          (handle_decoded-Untouched bytes (decode_message P.lib0 bytes) n)
