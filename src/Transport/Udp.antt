-- ===== src/Transport/Udp.antt =====
-- internal/transport/udp.go: the UDP server around the server state. An address is the text that
-- net.UDPAddr.String makes of it, and what is written to the socket is a list of datagrams, oldest
-- first. The socket and its loops are I/O.
pub mod Events
pub mod Served
pub mod Handling
pub mod Invariant
pub mod Answers
pub mod Eviction
pub mod Heartbeats
pub mod Tests
use dwcs.Base.{
  ℕ, suc, ◌-◌, ◌*◌, String, Bool, none, some, List, [], ◌∷◌, ◌++◌, ok, err, Bytes, Slice, second,
  str_eq, if◌then◌else◌, ltb, length, keep,
}
use dwcs.GoMap.{GoMap, lookup, map_values, values, adjust}
use dwcs.AddrBook.{Book, empty, enter, drop_all}
use dwcs.Drain.{drain}
use dwcs.Session.{Session, error_text}
use dwcs.Session
use dwcs.Protocol.{Codec, Envelope, error, msg_error, msg_ping, msg_pong, encode, encoded}
use dwcs.Backend.{Server}
use dwcs.Dispatcher.{handle, reply}
use dwcs.Transport.{Event, connect, disconnect, registers, evicts, projects, step}

-- udpClientEntry
pub record UdpClient : Type 0 where
  pub session_id : String
  pub addr : String
  pub last_seen : ℕ

abbrev pub udp_client_timeout : ℕ
udp_client_timeout = 30 * second

unfoldable pub new_udp_client : String → String → ℕ → UdpClient
new_udp_client session_id addr now = record {
  session_id = session_id;
  addr = addr;
  last_seen = now;
}

unfoldable pub touch : ℕ → UdpClient → UdpClient
touch now e = record e { last_seen = now }

-- time.Since(last) > udpClientTimeout
unfoldable pub is_expired : ℕ → UdpClient → Bool
is_expired now e = ltb udp_client_timeout (now - e.last_seen)

-- `book` holds clients and addrToSess; `server` is what manager, handler and callbacks act on.
pub record UdpServer : Type 0 where
  pub server : Server
  pub book : Book UdpClient
  pub written : List (String × Bytes)

unfoldable pub new_udp_server : Server → UdpServer
new_udp_server v = record { server = v; book = empty; written = [] }

abbrev serving : Server → UdpServer → UdpServer
serving v s = record s { server = v }

-- A write through a pointer to the entry of this session.
unfoldable pub through_client : String → (UdpClient → UdpClient) → UdpServer → UdpServer
through_client id f s = record s {
  book = record s.book {
    by_id = map_values (λ e. if str_eq e.session_id id then f e else e) s.book.by_id;
  };
}

-- The start of handleDatagram: the session of the address, which is `drawn` if there is none yet.
-- The entry is made at `made`, and the session at `added`.
unfoldable pub find_client : String → String → ℕ → ℕ → UdpServer → String × UdpServer
unfolding new_udp_client
find_client addr drawn made added s = elim (lookup addr s.book.by_addr) [
  | some id ↦ (id, s)
  | none ↦ (
    drawn,
    record s {
      server = connect drawn added s.server;
      book = enter drawn addr (new_udp_client drawn addr made) s.book;
    },
  )
]

module _ (c : Codec) where
  -- An error for the client, if its session is still there.
  unfoldable pub answer_error : String → String → String → String → Server → Server
  answer_error id request_id code message v =
      (reply v id (
        encoded c msg_error request_id
          (some (error (record { code = code; message = message }))))).1

  -- The rest of handleDatagram, for a datagram that is an envelope.
  unfoldable pub deliver : String → Envelope → (ℕ → ℕ) → Server → Server
  unfolding answer_error
  deliver id env clock v =
      if str_eq env.msg_type msg_ping
      then elim (Session.get v.outer.manager id) [
        | err e ↦ v
        | ok sess ↦ elim (encode c msg_pong env.request_id none) [
          | err e ↦ v
          | ok pong ↦ (reply v id pong).1
        ]
      ]
      else let (res, v') = handle c v id env clock in
        elim res [
          | ok u ↦ v'
          | err e ↦ answer_error id env.request_id "handler_error" (error_text e) v'
        ]

  -- `now` is the time of the touch, and `clock` has those that the handler reads.
  unfoldable pub handle_datagram :
      String → String → Bytes → ℕ → ℕ → ℕ → (ℕ → ℕ) → UdpServer → UdpServer
  unfolding find_client through_client touch deliver
  handle_datagram addr drawn datagram made added now clock s =
      let (id, s₁) = find_client addr drawn made added s in
      let s₂ = through_client id (touch now) s₁ in
      elim (c.unmarshal_envelope datagram) [
        | err e ↦ serving (answer_error id "" "bad_json" e s₂.server) s₂
        | ok env ↦ serving (deliver id env clock s₂.server) s₂
      ]

-- WriteToUDP, whose error is ignored.
unfoldable pub write_to : String → Bytes → UdpServer → UdpServer
write_to addr msg s = record s { written = s.written ++ (addr, msg) ∷ [] }

unfoldable pub write_all : String → List Bytes → UdpServer → UdpServer
unfolding write_to
write_all addr [] s = s
write_all addr (msg ∷ msgs) s = write_all addr msgs (write_to addr msg s)

-- What is left in the outbox of a session.
unfoldable pub leave : String → List Bytes → Server → Server
leave id left v = record v {
  outer = record v.outer {
    manager = record v.outer.manager {
      sessions = adjust id (λ s. record s { outbox = left }) v.outer.manager.sessions;
    };
  };
}

unfoldable pub flush_one : UdpClient → UdpServer → UdpServer
unfolding write_all leave
flush_one e s = elim (Session.get s.server.outer.manager e.session_id) [
  | err w ↦ s
  | ok sess ↦
      let (left, taken) = drain (suc (length sess.outbox)) sess.outbox [] in
      write_all e.addr taken (serving (leave e.session_id left s.server) s)
]

unfoldable pub flush_all : List UdpClient → UdpServer → UdpServer
unfolding flush_one
flush_all [] s = s
flush_all (e ∷ es) s = flush_all es (flush_one e s)

unfoldable pub flush_outboxes : UdpServer → UdpServer
unfolding flush_all
flush_outboxes s = flush_all (values s.book.by_id) s

-- The second loop of evictExpired, with the times that the release of their tasks reads.
unfoldable pub disconnect_all : List UdpClient → (String → String → ℕ) → Server → Server
disconnect_all [] stamp v = v
disconnect_all (e ∷ es) stamp v =
    disconnect_all es stamp (disconnect e.session_id (stamp e.session_id) v)

-- `now` is the time that isExpired reads, for the client of a session.
unfoldable pub evict_expired : (String → ℕ) → (String → String → ℕ) → UdpServer → UdpServer
unfolding is_expired disconnect_all
evict_expired now stamp s =
    let evicted = keep (λ e. is_expired (now e.session_id) e) (values s.book.by_id) in
    record s {
      book = drop_all (λ e. e.session_id) (λ e. e.addr) evicted s.book;
      server = disconnect_all evicted stamp s.server;
    }

unfoldable pub write_each : Bytes → List UdpClient → UdpServer → UdpServer
unfolding write_to
write_each msg [] s = s
write_each msg (e ∷ es) s = write_each msg es (write_to e.addr msg s)

unfoldable pub send_heartbeats : Codec → UdpServer → UdpServer
unfolding write_each
send_heartbeats c s = elim (encode c msg_ping "" none) [
  | err e ↦ s
  | ok ping ↦ write_each ping (values s.book.by_id) s
]
