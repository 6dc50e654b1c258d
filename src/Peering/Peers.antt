-- ===== src/Peering/Peers.antt =====
-- internal/peering/peering.go: the peers of the TCP manager, and what is sent to them. A *Peer is named
-- by its id in the manager's map. Connections has what happens on a socket, which is I/O itself.
pub mod Laws
pub mod Connections
pub mod Framing
use dwcs.Base.{
  ℕ, String, Bool, true, false, Option, none, some, List, [], ◌∷◌, ◌++◌, Result, ok, err, Bytes,
  str_eq, if◌then◌else◌, ltb, length,
}
use dwcs.GoMap.{GoMap, lookup, insert, delete, map_values}
use dwcs.Peering.{PeeringManager}
use dwcs.Peering.Events.{PeerEvent}

pub record Peer : Type 0 where
  pub id : String
  pub addr : String
  pub outbox : List Bytes
  pub closed : Bool

-- make(chan []byte, 256)
abbrev pub peer_buffer : ℕ
peer_buffer = 256

unfoldable pub new_peer : String → String → Peer
new_peer id addr = record { id = id; addr = addr; outbox = []; closed = false }

-- A send that does not wait, with the text of its error.
unfoldable pub send : Bytes → Peer → Result String (Unit {0}) × Peer
send msg p =
    if p.closed
    then (err "peer closed", p)
    else if ltb (length p.outbox) peer_buffer
    then (ok tt, record p { outbox = p.outbox ++ msg ∷ [] })
    else (ok tt, p)

-- The work of closeOnce, which no second call does again.
unfoldable pub close : Peer → Peer
close p = record p { closed = true }

pub record Manager : Type 0 where
  pub peers : GoMap Peer
  pub events : List PeerEvent
  pub stopped : Bool

unfoldable pub new_manager : Manager
new_manager = record { peers = []; events = []; stopped = false }

unfoldable pub add_peer : Peer → Manager → Manager
add_peer p m = record m { peers = insert p.id p m.peers }

-- The peer that is taken out of the map is closed.
unfoldable pub remove_peer : String → Manager → Option Peer × Manager
unfolding close
remove_peer id m = elim (lookup id m.peers) [
  | none ↦ (none, m)
  | some p ↦ (some (close p), record m { peers = delete id m.peers })
]

unfoldable pub broadcast : Bytes → Manager → Manager
broadcast msg m = record m { peers = map_values (λ p. (send msg p).1) m.peers }

-- if p.ID == exceptPeerID { continue }
unfoldable pub send_except : Bytes → String → Peer → Peer
send_except msg except p = if str_eq p.id except then p else (send msg p).1

unfoldable pub broadcast_except : Bytes → String → Manager → Manager
unfolding send_except
broadcast_except msg except m = record m { peers = map_values (send_except msg except) m.peers }

unfoldable pub peer_count : Manager → ℕ
peer_count m = length m.peers

unfoldable pub stop : Manager → Manager
unfolding close
stop m = record m { peers = map_values close m.peers; stopped = true }

-- A receive from the channel of events.
unfoldable pub receive : Manager → Option PeerEvent × Manager
receive m = elim m.events [ [] ↦ (none, m) | evt ∷ rest ↦ (some evt, record m { events = rest }) ]

abbrev pub tcp : PeeringManager Manager
tcp = record {
  broadcast = broadcast;
  broadcast_except = broadcast_except;
  receive = receive;
  peer_count = peer_count;
  stop = stop;
}
