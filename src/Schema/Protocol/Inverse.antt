-- ===== src/Schema/Protocol/Inverse.antt =====
-- Reading what was written.
use mathlib.Core.List.{append_assoc}
use hamboom.Base.{
  ℕ, ◌≡◌, refl, ◌<◌, ◌&&◌, Bool, true, false, not, some, [], ◌∷◌, ◌++◌, leb, if◌then◌else◌, arith,
}
use hamboom.Auth.Roles.{BoardRole, editor, commenter, viewer}
use hamboom.Schema.Protocol.{
  Bytes, Text, Lib0, HbMessage, SaveStatus, sync, awareness, auth_refresh, permission, room_info,
  ephemeral, hb_error, saved, saving, unsaved, message, role_index, save_index, read_role,
  read_save_status, encode_message, decode_message, BusEnvelope, BusKind, update, presence,
  transient, stored, state_request, kind_number, bus_kind, encode_envelope, decode_envelope,
}

-- Number.MAX_SAFE_INTEGER
abbrev pub max_safe : ℕ
max_safe = 9007199254740991

-- `isWellFormed` of a JavaScript text: surrogates stand in pairs. `after` says that a high one
-- stands before.
abbrev pub paired : (after : Bool) → Text → Bool
paired after [] = not after
paired after (c ∷ cs) =
    (if after then leb 0xdc00 c && leb c 0xdfff else not (leb 0xdc00 c && leb c 0xdfff))
    && paired (not after && (leb 0xd800 c && leb c 0xdbff)) cs

-- What lib0 promises: a reader takes back what its writer wrote and stops behind it. Numbers are
-- safe integers, and a text survives UTF-8 if it is well formed.
pub record IsInverse (lib : Lib0) : Type 0 where
  pub uint :
      (n : ℕ)
      → n < max_safe
      → (rest : Bytes) → lib.read_uint (lib.write_uint n ++ rest) ≡ some (n, rest)
  pub bytes : (b rest : Bytes) → lib.read_bytes (lib.write_bytes b ++ rest) ≡ some (b, rest)
  pub string :
      (t : Text)
      → paired false t ≡ true
      → (rest : Bytes) → lib.read_string (lib.write_string t ++ rest) ≡ some (t, rest)

-- The numbers of a message are safe integers and its texts well formed.
abbrev pub IsSendable : HbMessage → Type 0
IsSendable (sync _) = Unit
IsSendable (awareness _) = Unit
IsSendable (auth_refresh token) = paired false token ≡ true
IsSendable (permission _) = Unit
IsSendable (room_info users seq _) = (users < max_safe) × (seq < max_safe)
IsSendable (ephemeral client_id payload) = (client_id < max_safe) × (paired false payload ≡ true)
IsSendable (hb_error code text) = (paired false code ≡ true) × (paired false text ≡ true)

read_role-role_index : (r : BoardRole) → read_role (role_index r) ≡ r
unfolding read_role role_index
read_role-role_index BoardRole.owner = refl
read_role-role_index editor = refl
read_role-role_index commenter = refl
read_role-role_index viewer = refl

role_index-lt : (r : BoardRole) → role_index r < max_safe
unfolding role_index
role_index-lt BoardRole.owner = omega arith
role_index-lt editor = omega arith
role_index-lt commenter = omega arith
role_index-lt viewer = omega arith

read_save_status-save_index : (s : SaveStatus) → read_save_status (save_index s) ≡ s
unfolding read_save_status save_index
read_save_status-save_index saved = refl
read_save_status-save_index saving = refl
read_save_status-save_index unsaved = refl

save_index-lt : (s : SaveStatus) → save_index s < max_safe
unfolding save_index
save_index-lt saved = omega arith
save_index-lt saving = omega arith
save_index-lt unsaved = omega arith

bus_kind-kind_number : (k : BusKind) → bus_kind (kind_number k) ≡ some k
unfolding bus_kind kind_number
bus_kind-kind_number update = refl
bus_kind-kind_number presence = refl
bus_kind-kind_number transient = refl
bus_kind-kind_number stored = refl
bus_kind-kind_number state_request = refl

kind_number-lt : (k : BusKind) → kind_number k < max_safe
unfolding kind_number
kind_number-lt update = omega arith
kind_number-lt presence = omega arith
kind_number-lt transient = omega arith
kind_number-lt stored = omega arith
kind_number-lt state_request = omega arith

module _ (lib : Lib0) (inv : IsInverse lib) where
  -- If lib0 reads back what it writes, every message is decoded from its bytes, whatever bytes
  -- follow: safe integers and well-formed texts come back as they were sent.
  pub decode_message-encode_message :
      (m : HbMessage) (rest : Bytes)
      → IsSendable m
      → decode_message lib (encode_message lib m ++ rest) ≡ message m
  unfolding decode_message encode_message
  decode_message-encode_message (sync payload) rest h =
      simp append_assoc (rw (inv.uint 0 (omega arith)) (rw (inv.bytes payload)))
  decode_message-encode_message (awareness payload) rest h =
      simp append_assoc (rw (inv.uint 1 (omega arith)) (rw (inv.bytes payload)))
  decode_message-encode_message (auth_refresh token) rest h =
      simp append_assoc (rw (inv.uint 0x10 (omega arith)) (rw (inv.string token h)))
  decode_message-encode_message (permission role) rest h = simp append_assoc (
      rw (inv.uint 0x11 (omega arith))
        (rw (inv.uint (role_index role) (role_index-lt role)) (rw (read_role-role_index role))))
  decode_message-encode_message (room_info users seq status) rest h = simp append_assoc (
      rw (inv.uint 0x12 (omega arith)) (
        rw (inv.uint users h.0) (
          rw (inv.uint seq h.1) (
            rw (inv.uint (save_index status) (save_index-lt status))
              (rw (read_save_status-save_index status))))))
  decode_message-encode_message (ephemeral client_id payload) rest h =
      simp append_assoc (
        rw (inv.uint 0x13 (omega arith))
          (rw (inv.uint client_id h.0) (rw (inv.string payload h.1))))
  decode_message-encode_message (hb_error code text) rest h =
      simp append_assoc
        (rw (inv.uint 0x14 (omega arith)) (rw (inv.string code h.0) (rw (inv.string text h.1))))

  -- If lib0 reads back what it writes, every envelope between servers is decoded from its bytes,
  -- whatever bytes follow, if its sequence number is a safe integer and its node well formed.
  pub decode_envelope-encode_envelope :
      (e : BusEnvelope) (rest : Bytes)
      → e.seq < max_safe
      → paired false e.node ≡ true
      → decode_envelope lib (encode_envelope lib e ++ rest) ≡ some e
  unfolding decode_envelope encode_envelope
  decode_envelope-encode_envelope e rest h n = simp append_assoc (
      rw (inv.uint (kind_number e.kind) (kind_number-lt e.kind)) (
        rw (bus_kind-kind_number e.kind)
          (rw (inv.string e.node n) (rw (inv.uint e.seq h) (rw (inv.bytes e.payload))))))
