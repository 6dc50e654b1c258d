-- ===== src/Protocol.antt =====
-- internal/protocol/protocol.go: message types, payloads and envelopes. encoding/json is not part of
-- the repository: it is the parameter `Codec`.
pub mod Tests
pub mod Encoding
use dwcs.Base.{
  ℕ, zero, suc, ◌+◌, ◌-◌, ◌*◌, ◌/◌, ◌%◌, ◌^◌, ◌≤◌, ◌<◌, String, Bool, true, false, not, ◌&&◌, ◌||◌,
  Option, none, some, List, [], ◌∷◌, ◌++◌, map, append_assoc, append-nil, map-append, ◌≡◌, ◌≢◌, ◌↔◌,
  refl, sym, ap, ◌∙◌, subst, fun_ext, ◌⊎◌, inl, inr, arith, Result, ok, err, Slice, elems, Bytes,
  append_copy, next_uint64, Outcome, returned, panicked, Handler, recovered, Duration, pos, negsuc,
  second, Option-cases, Bool-cases, str_eq, str_eq_iff, str_eq_refl, str_eq_of_ne, if◌then◌else◌,
  ltb, leb, ◌==◌, ltb→lt, lt→ltb, leb→le, ==_iff, length, length-append, length-map, length-keep-le,
  keep, any, all, All, All-keep,
}

-- MessageType, a string with these constants.
abbrev pub msg_acquire_task : String
msg_acquire_task = "acquire_task"

abbrev pub msg_release_task : String
msg_release_task = "release_task"

abbrev pub msg_submit_result : String
msg_submit_result = "submit_result"

abbrev pub msg_subscribe : String
msg_subscribe = "subscribe"

abbrev pub msg_unsubscribe : String
msg_unsubscribe = "unsubscribe"

abbrev pub msg_ping : String
msg_ping = "ping"

abbrev pub msg_task_available : String
msg_task_available = "task_available"

abbrev pub msg_task_acquired_ok : String
msg_task_acquired_ok = "task_acquired_ok"

abbrev pub msg_task_acquired_fail : String
msg_task_acquired_fail = "task_acquired_fail"

abbrev pub msg_result_accepted : String
msg_result_accepted = "result_accepted"

abbrev pub msg_result_rejected : String
msg_result_rejected = "result_rejected"

abbrev pub msg_world_update : String
msg_world_update = "world_update"

abbrev pub msg_ownership_lost : String
msg_ownership_lost = "ownership_lost"

abbrev pub msg_pong : String
msg_pong = "pong"

abbrev pub msg_error : String
msg_error = "error"

pub record Envelope : Type 0 where
  pub msg_type : String
  pub request_id : String
  pub payload : Bytes

pub record AcquireTaskPayload : Type 0 where
  pub task_id : String

pub record ReleaseTaskPayload : Type 0 where
  pub task_id : String

pub record SubmitResultPayload : Type 0 where
  pub task_id : String
  pub payload : Bytes
  pub meta : Bytes

pub record SubscribePayload : Type 0 where
  pub tags : Slice String

pub record TaskAvailablePayload : Type 0 where
  pub task_id : String
  pub tags : Slice String
  pub hint : Bytes

-- The lease in whole seconds since the epoch of the clock.
pub record TaskAcquiredOkPayload : Type 0 where
  pub task_id : String
  pub lease_until : ℕ

pub record TaskAcquiredFailPayload : Type 0 where
  pub task_id : String
  pub reason : String

pub record ResultAcceptedPayload : Type 0 where
  pub task_id : String

pub record ResultRejectedPayload : Type 0 where
  pub task_id : String
  pub reason : String

pub record ObjectDiff : Type 0 where
  pub object_id : String
  pub payload : Bytes
  pub version : ℕ
  pub meta : Bytes

pub record WorldUpdatePayload : Type 0 where
  pub objects : List ObjectDiff

pub record OwnershipLostPayload : Type 0 where
  pub task_id : String
  pub reason : String

pub record ErrorPayload : Type 0 where
  pub code : String
  pub message : String

-- The values that the program hands to Encode as `any`.
pub data Payload : Type 0 where
  submit_result : SubmitResultPayload → Payload
  task_available : TaskAvailablePayload → Payload
  task_acquired_ok : TaskAcquiredOkPayload → Payload
  task_acquired_fail : TaskAcquiredFailPayload → Payload
  result_accepted : ResultAcceptedPayload → Payload
  result_rejected : ResultRejectedPayload → Payload
  world_update : WorldUpdatePayload → Payload
  ownership_lost : OwnershipLostPayload → Payload
  error : ErrorPayload → Payload

-- json.Marshal and json.Unmarshal at the types that the program uses, with the text of an error.
pub record Codec : Type 0 where
  pub marshal : Payload → Result String Bytes
  pub marshal_envelope : Envelope → Result String Bytes
  pub unmarshal_envelope : Bytes → Result String Envelope
  pub acquire_task : Bytes → Result String AcquireTaskPayload
  pub release_task : Bytes → Result String ReleaseTaskPayload
  pub submit_result : Bytes → Result String SubmitResultPayload
  pub subscribe : Bytes → Result String SubscribePayload
  pub world_update : Bytes → Result String WorldUpdatePayload

module _ (c : Codec) where
  -- The raw payload; a nil payload stays nil.
  unfoldable pub raw_of : Option Payload → Result String Bytes
  raw_of none = ok none
  raw_of (some p) = c.marshal p

  unfoldable pub encode_env : String → String → Option Payload → Result String Envelope
  unfolding raw_of
  encode_env msg_type request_id payload = elim (raw_of payload) [
    | err e ↦ err e
    | ok raw ↦ ok (record { msg_type = msg_type; request_id = request_id; payload = raw })
  ]

  unfoldable pub encode : String → String → Option Payload → Result String Bytes
  unfolding raw_of
  encode msg_type request_id payload = elim (raw_of payload) [
    | err e ↦ err e
    | ok raw ↦
        c.marshal_envelope (record { msg_type = msg_type; request_id = request_id; payload = raw })
  ]

  -- msg, _ := Encode(…): nil where encoding failed.
  unfoldable pub encoded : String → String → Option Payload → Bytes
  unfolding encode
  encoded msg_type request_id payload = elim (encode msg_type request_id payload) [
    | err e ↦ none
    | ok b ↦ b
  ]

unfoldable pub decode : {T : Type 0} → (Bytes → Result String T) → Envelope → Result String T
decode unmarshal env = unmarshal env.payload
