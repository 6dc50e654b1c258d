-- ===== src/Peering/Peers/Connections.antt =====
-- internal/peering/peering.go: a connection from its first event to its last, and what its lines say.
use dwcs.Base.{
  ℕ, suc, ◌+◌, ◌≤◌, ◌<◌, String, none, some, List, [], ◌∷◌, ◌++◌, append_assoc, append-nil, ◌≡◌,
  refl, sym, ap, ◌∙◌, arith, Result, ok, err, Bytes, str_eq, if◌then◌else◌, length, length-append,
}
use Prim.Native.String.{◌++◌ as join_text}
use dwcs.GoMap.{lookup, delete, insert}
use dwcs.GoMap.Laws.{lookup-insert, lookup-delete, lookup-insert_self}
use dwcs.Protocol.{Codec, Envelope}
use dwcs.Peering.Events.{PeerEvent, emit, connected, closed, message}
use dwcs.Peering.Peers.{Peer, Manager, new_peer, add_peer, remove_peer}

abbrev emitted : PeerEvent → Manager → Manager
emitted evt m = record m { events = emit evt m.events }

-- The loops of handleInbound and handleOutbound: a line that is no envelope is passed over.
unfoldable pub read_line : Codec → String → Bytes → Manager → Manager
read_line c id line m = elim (c.unmarshal_envelope line) [
  | err e ↦ m
  | ok env ↦ emitted (message id env) m
]

unfoldable pub read_lines : Codec → String → List Bytes → Manager → Manager
unfolding read_line
read_lines c id [] m = m
read_lines c id (line ∷ lines) m = read_lines c id lines (read_line c id line m)

-- The deferred calls of both.
unfoldable pub close_connection : String → Manager → Manager
close_connection id m = emitted (closed id) (remove_peer id m).1

module _ (peer_id : ℕ → ℕ → String) where
  -- The start of handleInbound, which is the end of Dial, with the id of the peer.
  unfoldable pub open_connection : String → ℕ → Manager → String × Manager
  open_connection addr now m =
      let id = peer_id now (length m.peers) in
      (id, emitted (connected id) (add_peer (new_peer id addr) m))

  -- Dial, with what net.DialTimeout answers; handleOutbound goes on.
  unfoldable pub dial :
      Result String (Unit {0}) → String → ℕ → Manager → Result String (Unit {0}) × Manager
  unfolding open_connection
  dial (err e) addr now m = (err (join_text "dial " (join_text addr (join_text ": " e))), m)
  dial (ok u) addr now m = (ok tt, (open_connection addr now m).1)

  -- handleInbound, on the lines that come before the connection ends.
  unfoldable pub handle_inbound : Codec → String → ℕ → List Bytes → Manager → Manager
  unfolding open_connection read_lines close_connection
  handle_inbound c addr now lines m =
      let (id, m₁) = open_connection addr now m in close_connection id (read_lines c id lines m₁)

-- The events of the lines that are envelopes.
unfoldable pub told : Codec → String → List Bytes → List PeerEvent
told c id [] = []
told c id (line ∷ lines) =
    let rest = told c id lines in
    elim (c.unmarshal_envelope line) [ err e ↦ rest | ok env ↦ message id env ∷ rest ]

emit-room :
    (evt : PeerEvent) (events : List PeerEvent)
    → length events < 1024
    → emit evt events ≡ events ++ evt ∷ []
unfolding emit
emit-room evt events room = ground (arith, room)

module _ (c : Codec) (id : String) where
  read_lines_lem :
      (lines : List Bytes) (m : Manager)
      → length m.events + length (told c id lines) ≤ 1024
      → read_lines c id lines m ≡ record m { events = m.events ++ told c id lines }
  unfolding read_lines read_line told
  read_lines_lem [] m room = ap (λ es. record m { events = es }) (sym (append-nil m.events))
  read_lines_lem (line ∷ lines) m room =
      split (read_lines_lem lines) (c.unmarshal_envelope line) refl
    where
      split :
          ((m : Manager)
            → length m.events + length (told c id lines) ≤ 1024
            → read_lines c id lines m ≡ record m { events = m.events ++ told c id lines })
          → (x : Result String Envelope) → c.unmarshal_envelope line ≡ x
          → read_lines c id (line ∷ lines) m
            ≡ record m { events = m.events ++ told c id (line ∷ lines) }
      split again (err e) q =
          rw (q, read_lines, read_line, told) (again m (ground (arith, room, q)))
      split again (ok env) q =
          rw (q, read_lines, read_line, told)
            (let room_left : suc (length m.events + length (told c id lines)) ≤ 1024 =
                ground (arith, room, q) in
              let evt = message id env in
              ap (λ es. read_lines c id lines (record m { events = es }))
                (emit-room evt m.events (omega (arith, room_left)))
              ∙ again (record m { events = m.events ++ evt ∷ [] })
                  (ground (arith, room_left, length-append m.events (evt ∷ [])))
              ∙ ap (λ es. record m { events = es })
                  (append_assoc m.events (evt ∷ []) (told c id lines)))

length-told :
    (c : Codec) (id : String) (lines : List Bytes) → length (told c id lines) ≤ length lines
unfolding told
length-told c id [] = omega arith
length-told c id (line ∷ lines) =
    elim (c.unmarshal_envelope line)
      as (λ x.
        length (elim x [ err e ↦ told c id lines | ok env ↦ message id env ∷ told c id lines ])
        ≤ suc (length lines)) [
          | err e ↦ omega (arith, length-told c id lines)
          | ok env ↦ omega (arith, length-told c id lines)
        ]

close_connection_lem :
    (id : String) (p : Peer) (m : Manager)
    → lookup id m.peers ≡ some p
    → length m.events < 1024
    → close_connection id m
      ≡ record m { peers = delete id m.peers; events = m.events ++ closed id ∷ [] }
close_connection_lem id p m found room =
    unfold close_connection remove_peer in
    rw (found, close_connection, remove_peer)
      (ap (λ es. record m { peers = delete id m.peers; events = es })
        (emit-room (closed id) m.events room))

module _ (peer_id : ℕ → ℕ → String) (c : Codec) where
  -- The state after a whole connection of the peer with this id.
  abbrev past : String → List Bytes → Peer → Manager → Manager
  past id lines p m = record m {
    peers = delete id (insert id p m.peers);
    events = ((m.events ++ connected id ∷ []) ++ told c id lines) ++ closed id ∷ [];
  }

  whole :
      (addr id : String) (now : ℕ) (lines : List Bytes) (m : Manager)
      → peer_id now (length m.peers) ≡ id
      → length m.events + length lines + 2 ≤ 1024
      → handle_inbound peer_id c addr now lines m ≡ past id lines (new_peer id addr) m
  whole addr id now lines m drawn room =
      let p = new_peer id addr in
      let es = m.events ++ connected id ∷ [] in
      let m₁ : Manager = record m { peers = insert id p m.peers; events = es } in
      let m₂ : Manager = record m₁ { events = es ++ told c id lines } in
      let few : length es ≡ suc (length m.events) =
        length-append m.events (connected id ∷ []) ∙ omega arith in
      let many : length (es ++ told c id lines) ≡ length es + length (told c id lines) =
        length-append es (told c id lines) in
      let opened : open_connection peer_id addr now m ≡ (id, m₁) =
        (unfold open_connection add_peer new_peer in
          rw (drawn, open_connection)
            (ap (λ x. (id, record m { peers = insert id p m.peers; events = x }))
              (emit-room (connected id) m.events (omega (arith, room))))) in
      let read : read_lines c id lines m₁ ≡ m₂ =
        read_lines_lem c id lines m₁ (omega (arith, few, room, length-told c id lines)) in
      let shut : close_connection id m₂ ≡ past id lines p m =
        close_connection_lem id p m₂ (lookup-insert_self id p m.peers)
          (omega (arith, few, many, room, length-told c id lines)) in
      unfold handle_inbound in
      (ap (λ (x : String × Manager). close_connection x.0 (read_lines c x.0 lines x.1)) opened
        ∙ ap (close_connection id) read
        ∙ shut)

  -- A connection of the TCP manager, on its own and with room in the channel, from its first event to
  -- its last: the node is told that the peer is there, then each of its lines that is an envelope, in
  -- their order, then that it is gone; and then no peer stands under its id, while each other peer
  -- stands as it did.
  pub handle_inbound_lem :
      (addr id : String) (now : ℕ) (lines : List Bytes) (m : Manager)
      → peer_id now (length m.peers) ≡ id
      → length m.events + length lines + 2 ≤ 1024
      → ((handle_inbound peer_id c addr now lines m).events
          ≡ ((m.events ++ connected id ∷ []) ++ told c id lines) ++ closed id ∷ [])
        × ((j : String)
            → lookup j (handle_inbound peer_id c addr now lines m).peers
              ≡ (if str_eq id j then none else lookup j m.peers))
  handle_inbound_lem addr id now lines m drawn room =
      let e = whole addr id now lines m drawn room in
      let p = new_peer id addr in
      (
        ap (λ (x : Manager). x.events) e,
        λ j.
            ap (λ (x : Manager). lookup j x.peers) e
            ∙ ground
                (arith, lookup-delete id j (insert id p m.peers), lookup-insert id j p m.peers),
      )
