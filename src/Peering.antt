-- ===== src/Peering.antt =====
-- internal/peering/manager_iface.go: what a node asks of its network. Listen and Addr are I/O, and Dial,
-- which is told what the network answers, is a definition of each manager.
pub mod Events
pub mod Peers
pub mod Udp
pub mod FanIn
pub mod Tests
use dwcs.Base.{ℕ, String, Bytes, Option}
use dwcs.Peering.Events.{PeerEvent}

-- PeeringManager, over the state `N` of the network. `receive` is a receive from the channel of
-- Events, and `none` is where the receiver waits.
pub record PeeringManager (N : Type 0) : Type 0 where
  pub broadcast : Bytes → N → N
  pub broadcast_except : Bytes → String → N → N
  pub receive : N → Option PeerEvent × N
  pub peer_count : N → ℕ
  pub stop : N → N
