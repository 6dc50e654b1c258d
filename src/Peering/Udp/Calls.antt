-- ===== src/Peering/Udp/Calls.antt =====
-- A history of the calls that the callers of the UDP manager make.
use dwcs.Base.{ℕ, String, List, [], ◌∷◌, Result, Bytes}
use dwcs.Protocol.{Codec}
use dwcs.Peering.Udp.{
  UdpManager, dial, handle_datagram, flush_outboxes, evict_expired, send_heartbeats, broadcast,
  broadcast_except, stop,
}

-- A call of the manager, with the times that it reads.
pub data Call : Type 0 where
  receives : String → Bytes → ℕ → ℕ → ℕ → Call
  dials : Result String String → String → ℕ → ℕ → Call
  flushes heartbeats stops : Call
  evicts : (String → ℕ) → Call
  sends : Bytes → Call
  sends_except : Bytes → String → Call

module _ (peer_id : ℕ → ℕ → String) (c : Codec) where
  unfoldable pub step : UdpManager → Call → UdpManager
  step m (receives addr datagram stamp made now) =
      handle_datagram peer_id c addr datagram stamp made now m
  step m (dials key addr stamp now) = (dial peer_id key addr stamp now m).1
  step m flushes = flush_outboxes m
  step m heartbeats = send_heartbeats c m
  step m stops = stop m
  step m (evicts now) = evict_expired now m
  step m (sends msg) = broadcast msg m
  step m (sends_except msg except) = broadcast_except msg except m

  unfoldable pub run : UdpManager → List Call → UdpManager
  run m [] = m
  run m (x ∷ xs) = run (step m x) xs
