-- ===== src/Peering/FanIn.antt =====
-- internal/peering/fanin.go: two managers behind one.
pub mod Merged
use dwcs.Base.{
  ℕ, ◌+◌, String, Option, none, some, List, [], ◌∷◌, ◌++◌, Result, ok, err, Bytes, ltb, length,
  if◌then◌else◌,
}
use dwcs.Peering.{PeeringManager}
use dwcs.Peering.Events.{PeerEvent}

-- `merged` is what waits in the channel of the same name.
pub record FanIn (A B : Type 0) : Type 0 where
  pub a : A
  pub b : B
  pub merged : List PeerEvent

-- make(chan PeerEvent, 2048)
abbrev pub merged_buffer : ℕ
merged_buffer = 2048

-- A send that does not wait.
unfoldable pub forward : PeerEvent → List PeerEvent → List PeerEvent
forward evt merged = if ltb (length merged) merged_buffer then merged ++ evt ∷ [] else merged

module _ {A B : Type 0} where
  unfoldable pub new_fan_in : A → B → FanIn A B
  new_fan_in a b = record { a = a; b = b; merged = [] }

  -- One round of fanIn on the events of the first manager, and on those of the second.
  unfoldable pub pump_a : PeeringManager A → FanIn A B → FanIn A B
  unfolding forward
  pump_a mgr n =
      let (next, a') = mgr.receive n.a in
      elim next [ none ↦ n | some evt ↦ record n { a = a'; merged = forward evt n.merged } ]

  unfoldable pub pump_b : PeeringManager B → FanIn A B → FanIn A B
  unfolding forward
  pump_b mgr n =
      let (next, b') = mgr.receive n.b in
      elim next [ none ↦ n | some evt ↦ record n { b = b'; merged = forward evt n.merged } ]

  -- Dial, with the Dial of each manager: both are called, and the first error is the answer.
  unfoldable pub dial :
      (A → Result String (Unit {0}) × A)
      → (B → Result String (Unit {0}) × B)
      → FanIn A B
      → Result String (Unit {0}) × FanIn A B
  dial dial_a dial_b n =
      let (res_a, a') = dial_a n.a in
      let (res_b, b') = dial_b n.b in
      (elim res_a [ err e ↦ err e | ok u ↦ res_b ], record n { a = a'; b = b' })

  -- <-m.merged
  unfoldable pub receive : FanIn A B → Option PeerEvent × FanIn A B
  receive n = elim n.merged [ [] ↦ (none, n) | evt ∷ rest ↦ (some evt, record n { merged = rest }) ]

  -- Each message goes to both managers.
  unfoldable pub fan_in : PeeringManager A → PeeringManager B → PeeringManager (FanIn A B)
  unfolding receive
  fan_in a b = record {
    broadcast = λ msg n. record n { a = a.broadcast msg n.a; b = b.broadcast msg n.b };
    broadcast_except = λ msg except n. record n {
      a = a.broadcast_except msg except n.a;
      b = b.broadcast_except msg except n.b;
    };
    receive = receive;
    peer_count = λ n. a.peer_count n.a + b.peer_count n.b;
    stop = λ n. record n { a = a.stop n.a; b = b.stop n.b };
  }
