-- ===== src/Peering/Udp/Tests.antt =====
-- The UDP manager at concrete inputs.
use dwcs.Base.{
  ℕ, String, true, false, none, some, List, [], ◌∷◌, ◌≡◌, refl, arith, ok, str_eq, str_eq_iff,
  length,
}
use dwcs.GoMap.{lookup, map_values}
use dwcs.AddrBook.Laws.{IsPaired}
use dwcs.AddrBook.Names.{name, name_distinct}
use dwcs.Protocol.Tests.{fixed_codec}
use dwcs.Peering.Udp.{
  UdpPeer, UdpManager, new_udp_manager, flush_outboxes, evict_expired, handle_datagram,
}
use dwcs.Peering.Udp.Calls.{Call, receives, dials, sends, evicts, run}
use dwcs.Peering.Udp.Sound.{IsSoundAt}
use dwcs.Peering.Udp.Invariant.{run-new_udp_manager-IsSound}
use dwcs.Peering.Udp.Flush.{flush_outboxes_lem}
use dwcs.Peering.Udp.Datagrams.{evict_expired-handle_datagram, HasTouched}

-- The counter alone tells the ids apart.
abbrev pub peer_id : ℕ → ℕ → String
peer_id now k = name k

abbrev pub calls : List Call
calls =
    receives "10.0.0.1" none 4 5 6
    ∷ dials (ok "10.0.0.2") "b" 7 7
    ∷ sends (some (7 ∷ []))
    ∷ evicts (λ id. 20)
    ∷ []

run-new_udp_manager-IsSound_example :
    IsSoundAt peer_id (length calls) (run peer_id fixed_codec new_udp_manager calls)
run-new_udp_manager-IsSound_example =
    run-new_udp_manager-IsSound peer_id (λ t k t' k' e. name_distinct k k' e) fixed_codec calls
      (omega arith)

-- A peer that two messages wait for.
abbrev pub anns : UdpPeer
anns = record { id = "ann"; addr = "10.0.0.1"; last_seen = 5; outbox = some (7 ∷ []) ∷ none ∷ [] }

abbrev pub manager : UdpManager
manager = record {
  listening = true;
  book = record { by_id = ("ann", anns) ∷ []; by_addr = ("10.0.0.1", "ann") ∷ [] };
  events = [];
  stopped = false;
  counter = 1;
  written = ("10.0.0.9", none) ∷ [];
}

flush_outboxes_lem_example : flush_outboxes manager ≡ record manager {
  book = record manager.book { by_id = ("ann", record anns { outbox = [] }) ∷ [] };
  written = ("10.0.0.9", none) ∷ ("10.0.0.1", some (7 ∷ [])) ∷ ("10.0.0.1", none) ∷ [];
}
unfolding map_values
flush_outboxes_lem_example = flush_outboxes_lem manager refl

manager-IsPaired : IsPaired (λ (p : UdpPeer). p.id) (λ p. p.addr) manager.book
unfolding lookup str_eq
manager-IsPaired = record {
  forth = ((refl, refl, refl), tt);
  back = λ a k found. (
    anns,
    ground (arith, found, str_eq_iff "ann" k, str_eq_iff "10.0.0.1" a),
    ground (arith, found, str_eq_iff "10.0.0.1" a),
  );
}

evict_expired-handle_datagram_example :
    HasTouched peer_id fixed_codec "10.0.0.1" 6
      (evict_expired
        (λ id. 9)
        (handle_datagram peer_id fixed_codec "10.0.0.1" none 4 5 6
          (run peer_id fixed_codec new_udp_manager calls))).book
evict_expired-handle_datagram_example =
    evict_expired-handle_datagram peer_id fixed_codec "10.0.0.1" none 4 5 6 (length calls) (λ id. 9)
      (run peer_id fixed_codec new_udp_manager calls) (λ t k t' k' e. name_distinct k k' e)
      (omega arith) run-new_udp_manager-IsSound_example (λ id. omega arith)
