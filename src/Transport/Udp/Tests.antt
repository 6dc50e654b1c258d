-- ===== src/Transport/Udp/Tests.antt =====
-- The UDP server at concrete inputs: a client that comes with a subscription, and answers a heartbeat.
use dwcs.Base.{
  ◌+◌, String, true, none, some, List, [], ◌∷◌, ◌++◌, ◌≡◌, ◌≢◌, refl, arith, ok, Bytes, pos, str_eq,
  str_eq_iff, length,
}
use dwcs.GoMap.{lookup}
use dwcs.AddrBook.Laws.{IsPaired}
use dwcs.AddrBook.Names.{name, name_distinct}
use dwcs.Session.{Session}
use dwcs.Protocol.{Codec, Envelope}
use dwcs.Protocol.Tests.{fixed_codec}
use dwcs.Backend.{new_server}
use dwcs.Dispatcher.Tests.{server, ann}
use dwcs.Transport.Udp.{
  UdpClient, UdpServer, new_udp_server, flush_outboxes, evict_expired, handle_datagram,
}
use dwcs.Transport.Udp.Events.{
  UdpEvent, receives, flushes, heartbeats, expires, task_registers, ticks, run,
}
use dwcs.Task.Owners.{IsOwnedBy}
use dwcs.Transport.Udp.Eviction.{evict_expired-leaves}
use dwcs.Transport.Udp.Served.{IsServedAt}
use dwcs.Transport.Udp.Invariant.{run-new_udp_server-IsServed}
use dwcs.Transport.Udp.Answers.{flush_outboxes-reaches, as_datagrams, drained}
use dwcs.Transport.Udp.Heartbeats.{handle_datagram-pong, complaint}

abbrev pub events : List UdpEvent
events =
    receives "10.0.0.1" none 5 6 7 (λ i. i + 10)
    ∷ task_registers "t" none none 20 20
    ∷ ticks
    ∷ flushes
    ∷ heartbeats
    ∷ expires (λ id. 40000000000) (λ s t. 40000000000)
    ∷ []

run-new_udp_server-IsServed_example :
    IsServedAt name
      (length events)
      (run name fixed_codec 0 (new_udp_server (new_server fixed_codec none true (pos 0) 1)) events)
run-new_udp_server-IsServed_example =
    run-new_udp_server-IsServed name fixed_codec name_distinct none true (pos 0) 1 events

-- The session `ann` is the one of a client, and two messages wait for it.
abbrev pub waiting : Session
waiting = record ann { outbox = some (7 ∷ []) ∷ none ∷ [] }

abbrev pub anns_client : UdpClient
anns_client = record { session_id = "ann"; addr = "10.0.0.1"; last_seen = 5 }

abbrev pub serving_ann : UdpServer
serving_ann = record {
  server = record server {
    outer = record server.outer { manager = record { sessions = ("ann", waiting) ∷ [] } };
  };
  book = record { by_id = ("ann", anns_client) ∷ []; by_addr = ("10.0.0.1", "ann") ∷ [] };
  written = [];
}

serving_ann-IsPaired : IsPaired (λ (e : UdpClient). e.session_id) (λ e. e.addr) serving_ann.book
unfolding lookup str_eq
serving_ann-IsPaired = record {
  forth = ((refl, refl, refl), tt);
  back = λ a k found. (
    anns_client,
    ground (arith, found, str_eq_iff "ann" k, str_eq_iff "10.0.0.1" a),
    ground (arith, found, str_eq_iff "10.0.0.1" a),
  );
}

flush_outboxes-reaches_example :
    (xs : List (String × Bytes)) × (ys : List (String × Bytes)) × ((flush_outboxes
        serving_ann).written
      ≡ [] ++ (xs ++ (as_datagrams "10.0.0.1" (some (7 ∷ []) ∷ none ∷ []) ++ ys)))
    × (lookup "ann" (flush_outboxes serving_ann).server.outer.manager.sessions
        ≡ some (drained waiting))
unfolding lookup str_eq
flush_outboxes-reaches_example =
    flush_outboxes-reaches serving_ann "ann" anns_client waiting serving_ann-IsPaired refl refl

abbrev pub pong : Envelope
pong = record { msg_type = "pong"; request_id = "r"; payload = none }

-- Every datagram reads as a pong.
abbrev pub ponging : Codec
ponging = record fixed_codec { unmarshal_envelope = λ b. ok pong }

handle_datagram-pong_example :
    lookup "ann"
      (handle_datagram ponging "10.0.0.1" "x" none 5 6 7
        (λ i. i)
        serving_ann).server.outer.manager.sessions
    ≡ some (record waiting { outbox = waiting.outbox ++ complaint ponging pong ∷ [] })
unfolding lookup str_eq
handle_datagram-pong_example =
    handle_datagram-pong ponging "10.0.0.1" "x" "ann" none 5 6 7 (λ i. i) serving_ann pong waiting
      refl refl refl refl refl (omega arith)

abbrev pub one_client : List UdpEvent
one_client = receives "10.0.0.1" none 5 6 7 (λ i. i + 10) ∷ []

abbrev pub with_client : UdpServer
with_client =
    run name fixed_codec 0 (new_udp_server (new_server fixed_codec none true (pos 0) 1)) one_client

abbrev pub first_client : UdpClient
first_client = record { session_id = ""; addr = "10.0.0.1"; last_seen = 7 }

evict_expired-leaves_example :
    let s' = evict_expired (λ id. 40000000000) (λ s t. 40000000001) with_client in
    (lookup "" s'.book.by_id ≡ none)
    × (lookup "" s'.server.outer.manager.sessions ≡ none)
    × IsOwnedBy (λ owner. owner ≢ "") s'.server.registry
unfolding lookup str_eq run dwcs.Transport.Udp.Events.step handle_datagram dwcs.GoMap.map_values
    new_udp_server dwcs.AddrBook.enter dwcs.GoMap.insert
evict_expired-leaves_example =
    evict_expired-leaves name 1 with_client "" first_client (λ id. 40000000000) (λ s t. 40000000001)
      (run-new_udp_server-IsServed name fixed_codec name_distinct none true (pos 0) 1 one_client)
      refl (omega arith)
