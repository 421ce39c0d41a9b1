-- ===== src/Schema/Protocol/Tests.antt =====
-- Messages through a concrete lib0.
use hamboom.Schema.Protocol.Sample.{simple, simple-IsInverse}
use hamboom.Base.{◌≡◌, refl, ◌++◌, some, [], ◌∷◌, arith}
use hamboom.Auth.Roles.{editor}
use hamboom.Schema.Protocol.{
  room_info, permission, saved, message, unknown, corrupt, encode_message, decode_message,
  BusEnvelope, stored, encode_envelope, decode_envelope,
}
use hamboom.Schema.Protocol.Inverse.{decode_message-encode_message, decode_envelope-encode_envelope}

decode_message-encode_message_example :
    decode_message simple (encode_message simple (room_info 3 70 saved) ++ (9 ∷ []))
    ≡ message (room_info 3 70 saved)
decode_message-encode_message_example =
    decode_message-encode_message simple simple-IsInverse (room_info 3 70 saved) (9 ∷ [])
      (omega arith, omega arith)

abbrev envelope : BusEnvelope
envelope = record { node = 110 ∷ 49 ∷ []; kind = stored; payload = []; seq = 12 }

decode_envelope-encode_envelope_example :
    decode_envelope simple (encode_envelope simple envelope ++ []) ≡ some envelope
decode_envelope-encode_envelope_example =
    decode_envelope-encode_envelope simple simple-IsInverse envelope [] (omega arith) refl

-- A type that a newer client sends is ignored, and a frame cut short is corrupt.
newer : decode_message simple (0x20 ∷ 1 ∷ []) ≡ unknown
unfolding decode_message
newer = refl

cut_short : decode_message simple (0x11 ∷ []) ≡ corrupt 0x11
unfolding decode_message
cut_short = refl

role : decode_message simple (0x11 ∷ 1 ∷ []) ≡ message (permission editor)
unfolding decode_message
role = refl
