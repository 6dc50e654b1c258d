-- ===== src/Peering/Udp.antt =====
-- internal/peering/udp.go: the UDP manager. An address is the text that net.UDPAddr.String makes of it,
-- and what is written to the socket is a list of datagrams, oldest first. The text of an id, which
-- fmt.Sprintf makes of a time and the counter, is the parameter `peer_id`.
pub mod Calls
pub mod Sound
pub mod Keeping
pub mod Invariant
pub mod Flush
pub mod Datagrams
pub mod Tests
use dwcs.Base.{
  ℕ, zero, suc, ◌-◌, ◌*◌, String, Bool, true, false, Option, none, some, List, [], ◌∷◌, ◌++◌,
  Result, ok, err, Bytes, second, next_uint64, str_eq, if◌then◌else◌, ltb, length, keep,
}
use Prim.Native.String.{◌++◌ as join_text}
use dwcs.GoMap.{GoMap, lookup, map_values, values}
use dwcs.Drain.{drain}
use dwcs.AddrBook.{Book, empty, enter, drop_all}
use dwcs.Protocol.{Codec, Envelope, msg_ping, msg_pong, encode}
use dwcs.Peering.{PeeringManager}
use dwcs.Peering.Events.{PeerEvent, emit, connected, closed, message}

-- udpPeer, without its field `closed`, which no code uses.
pub record UdpPeer : Type 0 where
  pub id : String
  pub addr : String
  pub last_seen : ℕ
  pub outbox : List Bytes

abbrev pub udp_peer_timeout : ℕ
udp_peer_timeout = 30 * second

-- make(chan []byte, 256)
abbrev pub udp_peer_buffer : ℕ
udp_peer_buffer = 256

unfoldable pub new_udp_peer : String → String → ℕ → UdpPeer
new_udp_peer id addr now = record { id = id; addr = addr; last_seen = now; outbox = [] }

unfoldable pub touch : ℕ → UdpPeer → UdpPeer
touch now p = record p { last_seen = now }

-- time.Since(last) > udpPeerTimeout
unfoldable pub is_expired : ℕ → UdpPeer → Bool
is_expired now p = ltb udp_peer_timeout (now - p.last_seen)

-- A send into the outbox that does not wait.
unfoldable pub push : Bytes → UdpPeer → UdpPeer
push msg p =
    if ltb (length p.outbox) udp_peer_buffer then record p { outbox = p.outbox ++ msg ∷ [] } else p

-- `listening` is that conn is there and not closed, and `book` holds peers and addrToPeer.
pub record UdpManager : Type 0 where
  pub listening : Bool
  pub book : Book UdpPeer
  pub events : List PeerEvent
  pub stopped : Bool
  pub counter : ℕ
  pub written : List (String × Bytes)

unfoldable pub new_udp_manager : UdpManager
new_udp_manager = record {
  listening = false;
  book = empty;
  events = [];
  stopped = false;
  counter = 0;
  written = [];
}

-- The end of Listen, once the socket is there.
unfoldable pub listen : UdpManager → UdpManager
listen m = record m { listening = true }

abbrev emitted : PeerEvent → UdpManager → UdpManager
emitted evt m = record m { events = emit evt m.events }

-- WriteToUDP, whose error is ignored.
unfoldable pub write_to : String → Bytes → UdpManager → UdpManager
write_to addr msg m =
    if m.listening then record m { written = m.written ++ (addr, msg) ∷ [] } else m

-- A write through a pointer to the peer with this id.
unfoldable pub through_peer : String → (UdpPeer → UdpPeer) → UdpManager → UdpManager
through_peer id f m = record m {
  book = record m.book { by_id = map_values (λ p. if str_eq p.id id then f p else p) m.book.by_id };
}

module _ (peer_id : ℕ → ℕ → String) where
  -- newPeer, with the id of the peer that it returns; `stamp` is the time in the id, and `now` that of
  -- newUDPPeer.
  unfoldable pub new_peer : String → ℕ → ℕ → UdpManager → String × UdpManager
  unfolding new_udp_peer
  new_peer addr stamp now m =
      let count = next_uint64 m.counter in
      let id = peer_id stamp count in
      (id, record m { counter = count; book = enter id addr (new_udp_peer id addr now) m.book })

  -- The start of handleDatagram: the peer at the address, which is new if there is none.
  unfoldable pub find_peer : String → ℕ → ℕ → UdpManager → String × UdpManager
  unfolding new_peer
  find_peer addr stamp now m = elim (lookup addr m.book.by_addr) [
    | some id ↦ (id, m)
    | none ↦ let (id, m₁) = new_peer addr stamp now m in (id, emitted (connected id) m₁)
  ]

  -- Dial, with the address or the error of net.ResolveUDPAddr.
  unfoldable pub dial :
      Result String String → String → ℕ → ℕ → UdpManager → Result String (Unit {0}) × UdpManager
  unfolding new_peer
  dial (err e) addr stamp now m =
      (err (join_text "resolve " (join_text addr (join_text ": " e))), m)
  dial (ok key) addr stamp now m = elim (lookup key m.book.by_addr) [
    | some id ↦ (ok tt, m)
    | none ↦ let (id, m₁) = new_peer key stamp now m in (ok tt, emitted (connected id) m₁)
  ]

  module _ (c : Codec) where
    -- The end of handleDatagram: a pong is only a sign of life, and a ping is answered.
    unfoldable pub deliver : String → String → Envelope → UdpManager → UdpManager
    unfolding write_to
    deliver id addr env m =
        if str_eq env.msg_type msg_pong
        then m
        else if str_eq env.msg_type msg_ping
        then elim (encode c msg_pong env.request_id none) [
          | err e ↦ m
          | ok pong ↦ write_to addr pong m
        ]
        else emitted (message id env) m

    -- handleDatagram, a new peer being made at `stamp` and `made`, and `now` being the time of the touch.
    unfoldable pub handle_datagram : String → Bytes → ℕ → ℕ → ℕ → UdpManager → UdpManager
    unfolding find_peer through_peer touch deliver
    handle_datagram addr datagram stamp made now m =
        let (id, m₁) = find_peer addr stamp made m in
        let m₂ = through_peer id (touch now) m₁ in
        elim (c.unmarshal_envelope datagram) [ err e ↦ m₂ | ok env ↦ deliver id addr env m₂ ]

unfoldable pub write_all : String → List Bytes → UdpManager → UdpManager
unfolding write_to
write_all addr [] m = m
write_all addr (msg ∷ msgs) m = write_all addr msgs (write_to addr msg m)

unfoldable pub flush_one : UdpPeer → UdpManager → UdpManager
unfolding drain write_all through_peer
flush_one p m =
    let (left, taken) = drain (suc (length p.outbox)) p.outbox [] in
    write_all p.addr taken (through_peer p.id (λ q. record q { outbox = left }) m)

unfoldable pub flush_all : List UdpPeer → UdpManager → UdpManager
unfolding flush_one
flush_all [] m = m
flush_all (p ∷ ps) m = flush_all ps (flush_one p m)

unfoldable pub flush_outboxes : UdpManager → UdpManager
unfolding flush_all
flush_outboxes m = flush_all (values m.book.by_id) m

unfoldable pub emit_closed : List UdpPeer → List PeerEvent → List PeerEvent
emit_closed [] events = events
emit_closed (p ∷ ps) events = emit_closed ps (emit (closed p.id) events)

-- `now` is the time that isExpired reads, for the peer with an id.
unfoldable pub evict_expired : (String → ℕ) → UdpManager → UdpManager
unfolding is_expired emit_closed
evict_expired now m =
    let evicted = keep (λ p. is_expired (now p.id) p) (values m.book.by_id) in
    record m {
      book = drop_all (λ p. p.id) (λ p. p.addr) evicted m.book;
      events = emit_closed evicted m.events;
    }

unfoldable pub write_each : Bytes → List UdpPeer → UdpManager → UdpManager
unfolding write_to
write_each msg [] m = m
write_each msg (p ∷ ps) m = write_each msg ps (write_to p.addr msg m)

unfoldable pub send_heartbeats : Codec → UdpManager → UdpManager
unfolding write_each
send_heartbeats c m = elim (encode c msg_ping "" none) [
  | err e ↦ m
  | ok ping ↦ write_each ping (values m.book.by_id) m
]

unfoldable pub broadcast : Bytes → UdpManager → UdpManager
unfolding push
broadcast msg m = record m { book = record m.book { by_id = map_values (push msg) m.book.by_id } }

unfoldable pub push_except : Bytes → String → UdpPeer → UdpPeer
unfolding push
push_except msg except p = if str_eq p.id except then p else push msg p

unfoldable pub broadcast_except : Bytes → String → UdpManager → UdpManager
unfolding push_except
broadcast_except msg except m = record m {
  book = record m.book { by_id = map_values (push_except msg except) m.book.by_id };
}

unfoldable pub peer_count : UdpManager → ℕ
peer_count m = length m.book.by_id

unfoldable pub stop : UdpManager → UdpManager
stop m = record m { stopped = true; listening = false }

-- A receive from the channel of events.
unfoldable pub receive : UdpManager → Option PeerEvent × UdpManager
receive m = elim m.events [ [] ↦ (none, m) | evt ∷ rest ↦ (some evt, record m { events = rest }) ]

abbrev pub udp : PeeringManager UdpManager
udp = record {
  broadcast = broadcast;
  broadcast_except = broadcast_except;
  receive = receive;
  peer_count = peer_count;
  stop = stop;
}
