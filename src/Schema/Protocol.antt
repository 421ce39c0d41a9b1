-- ===== src/Schema/Protocol.antt =====
-- packages/ydoc-schema/src/protocol.ts: the messages of the connection and their bytes, and
-- apps/realtime/src/pubsub/board-bus.ts: the envelopes between servers. The library lib0, which
-- writes and reads numbers, texts and byte arrays, is a parameter.
pub mod Inverse
pub mod Sample
mod Tests
use hamboom.Base.{
  ℕ, ◌≡◌, ◌<◌, ◌&&◌, Bool, true, false, not, Option, none, some, List, [], ◌∷◌, ◌++◌, ltb, leb,
  ◌==◌, if◌then◌else◌,
}
use hamboom.Auth.Roles.{BoardRole, owner, editor, commenter, viewer}

-- `Uint8Array`
abbrev pub Bytes : Type 0
Bytes = List ℕ

-- A `string`: its UTF-16 code units.
abbrev pub Text : Type 0
Text = List ℕ

-- lib0/encoding and lib0/decoding. What is written is put behind the bytes so far; a reader
-- answers the value and the bytes behind it, or none where it throws.
pub record Lib0 : Type 0 where
  pub write_uint : ℕ → Bytes
  pub read_uint : Bytes → Option (ℕ × Bytes)
  pub write_bytes : Bytes → Bytes
  pub read_bytes : Bytes → Option (Bytes × Bytes)
  pub write_string : Text → Bytes
  pub read_string : Bytes → Option (Text × Bytes)

pub data SaveStatus : Type 0 where
  saved saving unsaved : SaveStatus

pub data HbMessage : Type 0 where
  sync : (payload : Bytes) → HbMessage
  awareness : (payload : Bytes) → HbMessage
  auth_refresh : (token : Text) → HbMessage
  permission : BoardRole → HbMessage
  room_info : (users seq : ℕ) → SaveStatus → HbMessage
  ephemeral : (client_id : ℕ) (payload : Text) → HbMessage
  hb_error : (code message : Text) → HbMessage

-- `BOARD_ROLES.indexOf`
unfoldable pub role_index : BoardRole → ℕ
role_index BoardRole.owner = 0
role_index editor = 1
role_index commenter = 2
role_index viewer = 3

-- `SAVE_STATUSES.indexOf`
unfoldable pub save_index : SaveStatus → ℕ
save_index saved = 0
save_index saving = 1
save_index unsaved = 2

unfoldable pub message_type : HbMessage → ℕ
message_type (sync _) = 0x00
message_type (awareness _) = 0x01
message_type (auth_refresh _) = 0x10
message_type (permission _) = 0x11
message_type (room_info _ _ _) = 0x12
message_type (ephemeral _ _) = 0x13
message_type (hb_error _ _) = 0x14

-- The branches of the `switch` in `encodeMessage`.
unfoldable pub encode_body : Lib0 → HbMessage → Bytes
unfolding role_index save_index
encode_body lib (sync payload) = lib.write_bytes payload
encode_body lib (awareness payload) = lib.write_bytes payload
encode_body lib (auth_refresh token) = lib.write_string token
encode_body lib (permission role) = lib.write_uint (role_index role)
encode_body lib (room_info users seq save) =
    lib.write_uint users ++ (lib.write_uint seq ++ lib.write_uint (save_index save))
encode_body lib (ephemeral client_id payload) = lib.write_uint client_id ++ lib.write_string payload
encode_body lib (hb_error code message) = lib.write_string code ++ lib.write_string message

unfoldable pub encode_message : Lib0 → HbMessage → Bytes
unfolding message_type encode_body
encode_message lib message = lib.write_uint (message_type message) ++ encode_body lib message

-- An index that names no role is the least role.
unfoldable pub read_role : ℕ → BoardRole
read_role index =
    if index == 0
    then BoardRole.owner
    else if index == 1
    then editor
    else if index == 2
    then commenter
    else viewer

unfoldable pub read_save_status : ℕ → SaveStatus
read_save_status index = if index == 0 then saved else if index == 1 then saving else unsaved

-- null for a message of an unknown type, a ProtocolError for a corrupt one of a known type.
pub data Decoded : Type 0 where
  unknown : Decoded
  corrupt : (type : ℕ) → Decoded
  message : HbMessage → Decoded

-- `return { … read(decoder) }` under the `try`: the value read last ends the message.
abbrev pub last_read {ℓ} : {A : Type ℓ} → ℕ → (A → HbMessage) → Option (A × Bytes) → Decoded
last_read type f none = corrupt type
last_read type f (some (value, _)) = message (f value)

-- A value that others follow.
abbrev pub then_read {ℓ} : {A : Type ℓ} → ℕ → Option (A × Bytes) → (A → Bytes → Decoded) → Decoded
then_read type none k = corrupt type
then_read type (some (value, rest)) k = k value rest

-- The branches of the `switch` in `decodeMessage`.
unfoldable pub decode_body : Lib0 → ℕ → Bytes → Decoded
unfolding read_role read_save_status
decode_body lib type body =
    if type == 0x00
    then last_read type sync (lib.read_bytes body)
    else if type == 0x01
    then last_read type awareness (lib.read_bytes body)
    else if type == 0x10
    then last_read type auth_refresh (lib.read_string body)
    else if type == 0x11
    then last_read type (λ index. permission (read_role index)) (lib.read_uint body)
    else if type == 0x12
    then then_read type (lib.read_uint body) (λ users behind.
      then_read type (lib.read_uint behind) (λ seq end.
        last_read type (λ index. room_info users seq (read_save_status index)) (lib.read_uint end)))
    else if type == 0x13
    then then_read type (lib.read_uint body)
        (λ client_id behind. last_read type (ephemeral client_id) (lib.read_string behind))
    else if type == 0x14
    then then_read type (lib.read_string body)
        (λ code behind. last_read type (hb_error code) (lib.read_string behind))
    else unknown

-- What follows the number of the type; bytes without one are ignored.
unfoldable pub decode_typed : Lib0 → Option (ℕ × Bytes) → Decoded
unfolding decode_body
decode_typed lib none = unknown
decode_typed lib (some (type, body)) = decode_body lib type body

unfoldable pub decode_message : Lib0 → Bytes → Decoded
unfolding decode_typed
decode_message lib bytes = decode_typed lib (lib.read_uint bytes)

pub data BusKind : Type 0 where
  update presence transient stored state_request : BusKind

pub record BusEnvelope : Type 0 where
  pub node : Text
  pub kind : BusKind
  pub payload : Bytes
  pub seq : ℕ

unfoldable pub kind_number : BusKind → ℕ
kind_number update = 0
kind_number presence = 1
kind_number transient = 2
kind_number stored = 3
kind_number state_request = 4

-- `isBusKind`, with the kind that the number names
unfoldable pub bus_kind : ℕ → Option BusKind
bus_kind n =
    if n == 0
    then some update
    else if n == 1
    then some presence
    else if n == 2
    then some transient
    else if n == 3
    then some stored
    else if n == 4
    then some state_request
    else none

unfoldable pub encode_envelope : Lib0 → BusEnvelope → Bytes
unfolding kind_number
encode_envelope lib e =
    lib.write_uint (kind_number e.kind)
    ++ (lib.write_string e.node ++ (lib.write_uint e.seq ++ lib.write_bytes e.payload))

-- A read that another follows; a reader that throws ends in `catch`.
abbrev pub read_then {ℓ} :
    {A : Type ℓ} → Option (A × Bytes) → (A → Bytes → Option BusEnvelope) → Option BusEnvelope
read_then none k = none
read_then (some (value, rest)) k = k value rest

-- The rest of an envelope behind the number of its kind.
unfoldable pub decode_kind : Lib0 → Option BusKind → Bytes → Option BusEnvelope
decode_kind lib none body = none
decode_kind lib (some kind) body = read_then (lib.read_string body) (λ node behind.
    read_then (lib.read_uint behind) (λ seq end.
      read_then (lib.read_bytes end)
        (λ payload _. some (record { node = node; kind = kind; payload = payload; seq = seq }))))

unfoldable pub decode_numbered : Lib0 → Option (ℕ × Bytes) → Option BusEnvelope
unfolding decode_kind bus_kind
decode_numbered lib none = none
decode_numbered lib (some (number, body)) = decode_kind lib (bus_kind number) body

unfoldable pub decode_envelope : Lib0 → Bytes → Option BusEnvelope
unfolding decode_numbered
decode_envelope lib bytes = decode_numbered lib (lib.read_uint bytes)
