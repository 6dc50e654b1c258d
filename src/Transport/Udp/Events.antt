-- ===== src/Transport/Udp/Events.antt =====
-- A history of the UDP server: what its loops do, and what happens to the server behind it.
use dwcs.Base.{ℕ, suc, String, List, [], ◌∷◌, Bytes, Slice}
use dwcs.Protocol.{Codec}
use dwcs.Transport.{registers, evicts, projects}
use dwcs.Transport.{step as server_step}
use dwcs.Transport.Udp.{UdpServer, handle_datagram, flush_outboxes, evict_expired, send_heartbeats}

-- What happens to the server, with the times that it reads. Sessions are drawn one for each event.
pub data UdpEvent : Type 0 where
  receives : String → Bytes → ℕ → ℕ → ℕ → (ℕ → ℕ) → UdpEvent
  flushes heartbeats : UdpEvent
  expires : (String → ℕ) → (String → String → ℕ) → UdpEvent
  task_registers : String → Slice String → Bytes → ℕ → ℕ → UdpEvent
  leases_end : ℕ → (String → ℕ) → UdpEvent
  ticks : UdpEvent

module _ (session_id : ℕ → String) (c : Codec) where
  unfoldable pub step : ℕ → UdpServer → UdpEvent → UdpServer
  step n s (receives addr datagram made added now clock) =
      handle_datagram c addr (session_id n) datagram made added now clock s
  step n s flushes = flush_outboxes s
  step n s heartbeats = send_heartbeats c s
  step n s (expires now stamp) = evict_expired now stamp s
  step n s (task_registers id tags hint now stamp) = record s {
    server = server_step c s.server (registers id tags hint now stamp);
  }
  step n s (leases_end now stamp) = record s { server = server_step c s.server (evicts now stamp) }
  step n s ticks = record s { server = server_step c s.server projects }

  unfoldable pub run : ℕ → UdpServer → List UdpEvent → UdpServer
  run n s [] = s
  run n s (e ∷ es) = run (suc n) (step n s e) es
