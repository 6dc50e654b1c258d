-- ===== src/Peering/Peers/Laws.antt =====
-- What reaches the peers of the TCP manager.
use dwcs.Base.{
  ◌≤◌, String, some, List, [], ◌∷◌, ◌≡◌, refl, inl, inr, arith, Bytes, Option-cases, str_eq,
  str_eq_iff, if◌then◌else◌, length, length-append,
}
use dwcs.GoMap.{lookup, map_values}
use dwcs.GoMap.Laws.{lookup-insert, lookup-delete, lookup-map_values, map_option}
use dwcs.Peering.Peers.{
  Peer, new_peer, send, Manager, new_manager, add_peer, remove_peer, broadcast, send_except,
  broadcast_except, stop, close,
}

-- A call of the manager.
pub data Call : Type 0 where
  adds : String → String → Call
  removes : String → Call
  sends : Bytes → Call
  sends_except : Bytes → String → Call
  stops : Call

unfoldable pub step : Manager → Call → Manager
step m (adds id addr) = add_peer (new_peer id addr) m
step m (removes id) = (remove_peer id m).1
step m (sends msg) = broadcast msg m
step m (sends_except msg except) = broadcast_except msg except m
step m stops = stop m

unfoldable pub run : Manager → List Call → Manager
run m [] = m
run m (c ∷ cs) = run (step m c) cs

-- Each peer stands under its own id, and its outbox holds at most 256 messages.
pub record IsWell (m : Manager) : Type 0 where
  pub at_key :
      (k : String) (p : Peer) → lookup k m.peers ≡ some p → (p.id ≡ k) × (length p.outbox ≤ 256)

send-length :
    (msg : Bytes) (p : Peer)
    → length p.outbox ≤ 256
    → ((send msg p).1.id ≡ p.id) × (length (send msg p).1.outbox ≤ 256)
unfolding send
send-length msg p small = (ground arith, ground (arith, length-append p.outbox (msg ∷ [])))

-- What a loop over the peers keeps of each, it keeps of all.
map-IsWell :
    (f : Peer → Peer) (m : Manager)
    → ((p : Peer) → length p.outbox ≤ 256 → ((f p).id ≡ p.id) × (length (f p).outbox ≤ 256))
    → IsWell m
    → IsWell (record m { peers = map_values f m.peers })
map-IsWell f m keeps well = record {
  at_key = λ k p found. elim (Option-cases (lookup k m.peers)) [
    | inl missing ↦ absurd (ground (arith, lookup-map_values k f m.peers))
    | inr (q, old) ↦ ground (arith, lookup-map_values k f m.peers, well.at_key k q old, keeps q)
  ];
}

step-IsWell : (m : Manager) (c : Call) → IsWell m → IsWell (step m c)
unfolding step add_peer new_peer remove_peer broadcast broadcast_except stop
step-IsWell m (adds id addr) well = record {
  at_key = λ k p found.
      ground
        (arith, lookup-insert id k (new_peer id addr) m.peers, str_eq_iff id k, well.at_key k p);
}
step-IsWell m (removes id) well = record {
  at_key = λ k p found. ground (arith, lookup-delete id k m.peers, well.at_key k p);
}
step-IsWell m (sends msg) well = map-IsWell (λ p. (send msg p).1) m (send-length msg) well
step-IsWell m (sends_except msg except) well =
    map-IsWell (send_except msg except) m
      (λ p small. unfold send_except in ground (arith, send-length msg p small)) well
step-IsWell m stops well =
    let calm = map-IsWell close m (λ p small. unfold close in (refl, small)) well in
    record { at_key = calm.at_key }

run-IsWell : (m : Manager) (cs : List Call) → IsWell m → IsWell (run m cs)
unfolding run
run-IsWell m [] well = well
run-IsWell m (c ∷ cs) well = run-IsWell (step m c) cs (step-IsWell m c well)

-- After any history of peers that come and go, and of messages to them, each peer stands under its
-- own id, and its outbox holds at most 256 messages.
pub run-new-IsWell : (cs : List Call) → IsWell (run new_manager cs)
unfolding new_manager lookup
run-new-IsWell cs =
    run-IsWell new_manager cs (record { at_key = λ k p found. absurd (ground arith) })

-- BroadcastExcept, at a manager that has come about by any such history, sends the message once to
-- each peer but the one named, which it leaves as it was.
pub lookup-broadcast_except :
    (cs : List Call) (msg : Bytes) (except id : String)
    → let m = run new_manager cs in
      lookup id (broadcast_except msg except m).peers ≡ (
        if str_eq id except
        then lookup id m.peers
        else map_option (λ p. (send msg p).1) (lookup id m.peers))
unfolding broadcast_except send_except
lookup-broadcast_except cs msg except id =
    let m = run new_manager cs in
    elim (Option-cases (lookup id m.peers)) [
      | inl missing ↦ ground (arith, lookup-map_values id (send_except msg except) m.peers)
      | inr (p, found) ↦ ground (
        arith,
        lookup-map_values id (send_except msg except) m.peers,
        (run-new-IsWell cs).at_key id p found,
      )
    ]
