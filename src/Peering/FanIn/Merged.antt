-- ===== src/Peering/FanIn/Merged.antt =====
-- The order in which the events of a TCP and of a UDP manager come out of the two behind one.
use dwcs.Base.{
  ◌+◌, ◌≤◌, ◌<◌, Option, none, some, List, [], ◌∷◌, ◌++◌, append_assoc, append-nil, ◌≡◌, refl, sym,
  ap, ◌∙◌, subst, arith, length, length-append,
}
use dwcs.Peering.Events.{PeerEvent}
use dwcs.Peering.Peers.{Manager, tcp}
use dwcs.Peering.Peers
use dwcs.Peering.Udp.{UdpManager, udp}
use dwcs.Peering.Udp
use dwcs.Peering.FanIn.{FanIn, pump_a, pump_b, forward}

-- A round of one of the two loops.
pub data Turn : Type 0 where
  of_tcp of_udp : Turn

unfoldable pub pump : Turn → FanIn Manager UdpManager → FanIn Manager UdpManager
pump of_tcp n = pump_a tcp n
pump of_udp n = pump_b udp n

unfoldable pub pumps : List Turn → FanIn Manager UdpManager → FanIn Manager UdpManager
pumps [] n = n
pumps (t ∷ ts) n = pumps ts (pump t n)

-- The third list is the first two, taken in turns, each in its own order.
pub data Interleaves : List PeerEvent → List PeerEvent → List PeerEvent → Type 0 where
  done : Interleaves [] [] []
  from_first :
      {e : PeerEvent}
      → {xs ys zs : List PeerEvent} → Interleaves xs ys zs
      → Interleaves (e ∷ xs) ys (e ∷ zs)
  from_second :
      {e : PeerEvent}
      → {xs ys zs : List PeerEvent} → Interleaves xs ys zs
      → Interleaves xs (e ∷ ys) (e ∷ zs)

-- What a run of the loops took from each manager, and where it is now.
pub record HasMerged (n n' : FanIn Manager UdpManager) : Type 0 where
  pub taken_a : List PeerEvent
  pub taken_b : List PeerEvent
  pub came : List PeerEvent
  pub from_a : n.a.events ≡ taken_a ++ n'.a.events
  pub from_b : n.b.events ≡ taken_b ++ n'.b.events
  pub merged : n'.merged ≡ n.merged ++ came
  pub in_turns : Interleaves taken_a taken_b came

-- The events of a manager, after a round that takes the first of them.
abbrev with_a : List PeerEvent → FanIn Manager UdpManager → FanIn Manager UdpManager
with_a es n = record n { a = record n.a { events = es } }

abbrev with_b : List PeerEvent → FanIn Manager UdpManager → FanIn Manager UdpManager
with_b es n = record n { b = record n.b { events = es } }

forward-room :
    (e : PeerEvent) (merged : List PeerEvent)
    → length merged < 2048
    → forward e merged ≡ merged ++ e ∷ []
unfolding forward
forward-room e merged room = ground (arith, room)

pump_tcp :
    (n : FanIn Manager UdpManager)
    → length n.merged + length n.a.events ≤ 2048
    → (es : List PeerEvent) → n.a.events ≡ es
    → pump of_tcp n
      ≡ elim es [ [] ↦ n | e ∷ rest ↦ record (with_a rest n) { merged = n.merged ++ e ∷ [] } ]
unfolding pump pump_a Peers.receive
pump_tcp n room [] q =
    rw (q, pump, pump_a, Peers.receive) (λ i. record n { a = record n.a { events = q i } })
pump_tcp n room (e ∷ es) q =
    let room_left : length n.merged < 2048 = omega (arith, room, ap length q) in
    let got : tcp.receive n.a ≡ (some e, record n.a { events = es }) = rw (q, Peers.receive) refl in
    ap
      (λ (x : Option PeerEvent × Manager). elim x.0 [
        | none ↦ n
        | some evt ↦ record n { a = x.1; merged = forward evt n.merged }
      ])
      got
    ∙ ap (λ xs. record (with_a es n) { merged = xs }) (forward-room e n.merged room_left)

pump_udp :
    (n : FanIn Manager UdpManager)
    → length n.merged + length n.b.events ≤ 2048
    → (es : List PeerEvent) → n.b.events ≡ es
    → pump of_udp n
      ≡ elim es [ [] ↦ n | e ∷ rest ↦ record (with_b rest n) { merged = n.merged ++ e ∷ [] } ]
unfolding pump pump_b Udp.receive
pump_udp n room [] q =
    rw (q, pump, pump_b, Udp.receive) (λ i. record n { b = record n.b { events = q i } })
pump_udp n room (e ∷ es) q =
    let room_left : length n.merged < 2048 = omega (arith, room, ap length q) in
    let got : udp.receive n.b ≡ (some e, record n.b { events = es }) = rw (q, Udp.receive) refl in
    ap
      (λ (x : Option PeerEvent × UdpManager). elim x.0 [
        | none ↦ n
        | some evt ↦ record n { b = x.1; merged = forward evt n.merged }
      ])
      got
    ∙ ap (λ xs. record (with_b es n) { merged = xs }) (forward-room e n.merged room_left)

-- However the two loops take turns, while there is room for all that waits, no event is lost or made
-- up: what came is what was taken from the two managers, and the events of each come in their order.
pub pumps-HasMerged :
    (ts : List Turn) (n : FanIn Manager UdpManager)
    → length n.merged + length n.a.events + length n.b.events ≤ 2048
    → HasMerged n (pumps ts n)
unfolding pumps
pumps-HasMerged [] n room = record {
  taken_a = [];
  taken_b = [];
  came = [];
  from_a = refl;
  from_b = refl;
  merged = sym (append-nil n.merged);
  in_turns = done;
}
pumps-HasMerged (of_tcp ∷ ts) n room = split (pumps-HasMerged ts) n.a.events refl
  where
    split :
        ((m : FanIn Manager UdpManager)
          → length m.merged + length m.a.events + length m.b.events ≤ 2048
          → HasMerged m (pumps ts m))
        → (es : List PeerEvent) → n.a.events ≡ es
        → HasMerged n (pumps ts (pump of_tcp n))
    split again [] q =
        let e = pump_tcp n (omega (arith, room)) [] q in
        subst (λ m. HasMerged n (pumps ts m)) (sym e) (again n room)
    split again (e ∷ es) q =
        let m : FanIn Manager UdpManager = record (with_a es n) { merged = n.merged ++ e ∷ [] } in
        let h = again m (omega (arith, room, ap length q, length-append n.merged (e ∷ []))) in
        subst (λ m. HasMerged n (pumps ts m)) (sym (pump_tcp n (omega (arith, room)) (e ∷ es) q))
          (record {
            taken_a = e ∷ h.taken_a;
            taken_b = h.taken_b;
            came = e ∷ h.came;
            from_a = q ∙ ap (λ xs. e ∷ xs) h.from_a;
            from_b = h.from_b;
            merged = h.merged ∙ append_assoc n.merged (e ∷ []) h.came;
            in_turns = from_first h.in_turns;
          })
pumps-HasMerged (of_udp ∷ ts) n room = split (pumps-HasMerged ts) n.b.events refl
  where
    split :
        ((m : FanIn Manager UdpManager)
          → length m.merged + length m.a.events + length m.b.events ≤ 2048
          → HasMerged m (pumps ts m))
        → (es : List PeerEvent) → n.b.events ≡ es
        → HasMerged n (pumps ts (pump of_udp n))
    split again [] q =
        subst (λ m. HasMerged n (pumps ts m)) (sym (pump_udp n (omega (arith, room)) [] q))
          (again n room)
    split again (e ∷ es) q =
        let m : FanIn Manager UdpManager = record (with_b es n) { merged = n.merged ++ e ∷ [] } in
        let h = again m (omega (arith, room, ap length q, length-append n.merged (e ∷ []))) in
        subst (λ m. HasMerged n (pumps ts m)) (sym (pump_udp n (omega (arith, room)) (e ∷ es) q))
          (record {
            taken_a = h.taken_a;
            taken_b = e ∷ h.taken_b;
            came = e ∷ h.came;
            from_a = h.from_a;
            from_b = q ∙ ap (λ xs. e ∷ xs) h.from_b;
            merged = h.merged ∙ append_assoc n.merged (e ∷ []) h.came;
            in_turns = from_second h.in_turns;
          })
