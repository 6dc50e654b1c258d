-- ===== src/Peering/Events.antt =====
-- The events of a manager of peers, which internal/peering/peering.go declares and udp.go uses too.
use dwcs.Base.{ℕ, String, none, List, [], ◌∷◌, ◌++◌, ltb, length, if◌then◌else◌}
use dwcs.Protocol.{Envelope}

pub record PeerEvent : Type 0 where
  pub kind : String
  pub peer_id : String
  pub env : Envelope

abbrev pub event_peer_connected : String
event_peer_connected = "connected"

abbrev pub event_peer_message : String
event_peer_message = "message"

abbrev pub event_peer_closed : String
event_peer_closed = "closed"

-- The zero value of an envelope.
abbrev pub no_envelope : Envelope
no_envelope = record { msg_type = ""; request_id = ""; payload = none }

-- make(chan PeerEvent, 1024)
abbrev pub event_buffer : ℕ
event_buffer = 1024

-- A send that does not wait: an event for a full channel is dropped.
unfoldable pub emit : PeerEvent → List PeerEvent → List PeerEvent
emit evt events = if ltb (length events) event_buffer then events ++ evt ∷ [] else events

abbrev pub connected : String → PeerEvent
connected id = record { kind = event_peer_connected; peer_id = id; env = no_envelope }

abbrev pub closed : String → PeerEvent
closed id = record { kind = event_peer_closed; peer_id = id; env = no_envelope }

abbrev pub message : String → Envelope → PeerEvent
message id env = record { kind = event_peer_message; peer_id = id; env = env }
