-- ===== src/Gossip.antt =====
-- internal/gossip/gossip.go: the window of messages seen, and the sending of messages to the peers. The
-- conversion of bytes to a string is a parameter; gcLoop only runs gc once a minute.
pub mod Window
pub mod Tests
use dwcs.Base.{
  ℕ, ◌+◌, ◌*◌, String, Bool, true, false, not, none, some, [], Result, ok, err, Bytes, second,
  str_eq, if◌then◌else◌, ltb, keep,
}
use Prim.Native.String.{◌++◌ as join_text}
use dwcs.GoMap.{GoMap, lookup, insert}
use dwcs.Protocol.{Codec, Envelope, Payload, encode}
use dwcs.Peering.{PeeringManager}

pub record Gossip : Type 0 where
  pub seen : GoMap ℕ
  pub max_age : ℕ

unfoldable pub new_gossip : Gossip
new_gossip = record { seen = []; max_age = 300 * second }

-- One sweep: t.Before(now - maxAge), with the subtraction on the other side.
unfoldable pub gc : ℕ → Gossip → Gossip
gc now g = record g { seen = keep (λ e. not (ltb (e.1 + g.max_age) now)) g.seen }

unfoldable pub message_id : (Bytes → String) → Envelope → String
message_id text env =
    if str_eq env.request_id ""
    then join_text env.msg_type (join_text ":" (text env.payload))
    else env.request_id

-- ShouldForward at time `now`.
unfoldable pub should_forward : (Bytes → String) → Envelope → ℕ → Gossip → Bool × Gossip
unfolding message_id
should_forward text env now g = elim (lookup (message_id text env) g.seen) [
  | some t ↦ (false, g)
  | none ↦ (true, record g { seen = insert (message_id text env) now g.seen })
]

module _ {N : Type 0} (mgr : PeeringManager N) (c : Codec) where
  unfoldable pub broadcast : String → String → Payload → N → Result String (Unit {0}) × N
  broadcast msg_type request_id payload n = elim (encode c msg_type request_id (some payload)) [
    | err e ↦ (err e, n)
    | ok msg ↦ (ok tt, mgr.broadcast msg n)
  ]

  unfoldable pub broadcast_except :
      String → String → Payload → String → N → Result String (Unit {0}) × N
  broadcast_except msg_type request_id payload except n =
      elim (encode c msg_type request_id (some payload)) [
        | err e ↦ (err e, n)
        | ok msg ↦ (ok tt, mgr.broadcast_except msg except n)
      ]
