-- ===== src/Peering/Tests.antt =====
-- The TCP manager, and two managers behind one, at concrete inputs.
use dwcs.Base.{true, false, none, some, List, [], ◌∷◌, ◌≡◌, refl, arith, str_eq}
use dwcs.GoMap.{lookup, map_values, insert}
use dwcs.Peering.Peers.{peer_count, remove_peer, broadcast, add_peer, new_peer, tcp, new_manager}
use dwcs.Peering.Peers.Laws.{Call, adds, sends, removes, run, step}
use dwcs.Peering.Events.{connected, closed}
use dwcs.Peering.Peers.{Peer, Manager}
use dwcs.Peering.Peers.Framing.{write_loop, lines_from, lines_from-write_loop}
use dwcs.Peering.Udp.{UdpManager}
use dwcs.Peering.FanIn.{FanIn}
use dwcs.Peering.FanIn.Merged.{of_tcp, of_udp, pumps, HasMerged, pumps-HasMerged}

abbrev pub comings : List Call
comings = adds "a" "10.0.0.1" ∷ adds "b" "10.0.0.2" ∷ sends (some (7 ∷ [])) ∷ removes "c" ∷ []

two_peers : tcp.peer_count (run new_manager comings) ≡ 2
unfolding peer_count run step remove_peer lookup broadcast map_values add_peer insert new_manager
    str_eq new_peer
two_peers = refl

abbrev pub busy_peer : Peer
busy_peer = record {
  id = "a";
  addr = "10.0.0.1";
  outbox = some (7 ∷ 8 ∷ []) ∷ none ∷ [];
  closed = false;
}

lines_from-write_loop_example :
    (lines_from [] (write_loop 2 busy_peer).0 ≡ (7 ∷ 8 ∷ 10 ∷ []) ∷ (10 ∷ []) ∷ [])
    × ((write_loop 2 busy_peer).1 ≡ record busy_peer { outbox = [] })
lines_from-write_loop_example = lines_from-write_loop busy_peer ((refl, (refl, tt)), (tt, tt))

-- Both managers have told of a peer.
abbrev pub two_networks : FanIn Manager UdpManager
two_networks = record {
  a = record { peers = []; events = connected "a" ∷ closed "a" ∷ []; stopped = false };
  b = record {
    listening = true;
    book = record { by_id = []; by_addr = [] };
    events = connected "b" ∷ [];
    stopped = false;
    counter = 1;
    written = [];
  };
  merged = [];
}

pumps-HasMerged_example :
    HasMerged two_networks (pumps (of_tcp ∷ of_udp ∷ of_udp ∷ of_tcp ∷ []) two_networks)
pumps-HasMerged_example =
    pumps-HasMerged (of_tcp ∷ of_udp ∷ of_udp ∷ of_tcp ∷ []) two_networks (omega arith)
