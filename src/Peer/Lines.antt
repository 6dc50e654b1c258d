-- ===== src/Peer/Lines.antt =====
-- What the lines of a TCP connection do to a node: from the connection through the channel of events and
-- the event loop to the node.
use dwcs.Base.{
  ℕ, suc, ◌+◌, ◌≤◌, String, List, [], ◌∷◌, ◌++◌, ◌≡◌, refl, ap, ◌∙◌, arith, Result, ok, err, Bytes,
  str_eq, length,
}
use dwcs.Protocol.{Codec, Envelope}
use dwcs.Peering.{PeeringManager}
use dwcs.Peering.Events.{connected, closed}
use dwcs.Peering.Peers.{Manager}
use dwcs.Peering.Peers.Connections.{handle_inbound, told, handle_inbound_lem}
use dwcs.Peer.{Node, handle_event, handle_events, handle_peer_message}

module _ {N : Type 0} (mgr : PeeringManager N) (c : Codec) (text : Bytes → String) where
  -- The node on the lines of one peer themselves.
  unfoldable pub handle_lines : String → List Bytes → (ℕ → ℕ) → (ℕ → ℕ → ℕ) → Node N → Node N
  handle_lines id [] now clock n = n
  handle_lines id (line ∷ lines) now clock n =
      let skipped = handle_lines id lines now clock n in
      elim (c.unmarshal_envelope line) [
        | err e ↦ skipped
        | ok env ↦
            handle_lines id lines (λ i. now (suc i)) (λ i. clock (suc i))
              (handle_peer_message mgr c text id env (now 0) (clock 0) n)
      ]

  events-lines :
      (id : String) (lines : List Bytes) (now : ℕ → ℕ) (clock : ℕ → ℕ → ℕ) (n : Node N)
      → handle_events mgr c text (told c id lines ++ closed id ∷ []) now clock n
        ≡ handle_lines id lines now clock n
  unfolding handle_events handle_event told handle_lines str_eq
  events-lines id [] now clock n = refl
  events-lines id (line ∷ lines) now clock n =
      split (events-lines id lines) (c.unmarshal_envelope line) refl
    where
      split :
          ((now : ℕ → ℕ) (clock : ℕ → ℕ → ℕ) (n : Node N)
            → handle_events mgr c text (told c id lines ++ closed id ∷ []) now clock n
              ≡ handle_lines id lines now clock n)
          → (x : Result String Envelope) → c.unmarshal_envelope line ≡ x
          → handle_events mgr c text (told c id (line ∷ lines) ++ closed id ∷ []) now clock n
            ≡ handle_lines id (line ∷ lines) now clock n
      split rest (err e) q = rw (q, handle_lines, told) (rest now clock n)
      split rest (ok env) q =
          rw (q, handle_lines, told)
            (rest (λ i. now (suc i)) (λ i. clock (suc i))
              (handle_peer_message mgr c text id env (now 0) (clock 0) n))

  -- A connection of the TCP manager, on its own, with the channel empty at its start and room for its
  -- lines in it: the event loop does to the node what the lines say, one after the other in their
  -- order, each line that is an envelope as a message of the peer and each other line as nothing.
  pub handle_events-handle_inbound :
      (peer_id : ℕ → ℕ → String) (addr id : String) (at : ℕ) (lines : List Bytes) (m : Manager)
      (now : ℕ → ℕ) (clock : ℕ → ℕ → ℕ) (n : Node N)
      → peer_id at (length m.peers) ≡ id
      → m.events ≡ []
      → length lines + 2 ≤ 1024
      → handle_events mgr c text (handle_inbound peer_id c addr at lines m).events now clock n
        ≡ handle_lines id lines (λ i. now (suc i)) (λ i. clock (suc i)) n
  unfolding handle_events handle_event str_eq
  handle_events-handle_inbound peer_id addr id at lines m now clock n drawn idle room =
      let came =
        (handle_inbound_lem peer_id c addr id at lines m drawn
          (omega (arith, room, ap length idle))).0 in
      let same : (handle_inbound peer_id c addr at lines m).events
          ≡ connected id ∷ (told c id lines ++ closed id ∷ []) =
        came ∙ ap (λ es. ((es ++ connected id ∷ []) ++ told c id lines) ++ closed id ∷ []) idle in
      ap (λ es. handle_events mgr c text es now clock n) same
      ∙ events-lines id lines (λ i. now (suc i)) (λ i. clock (suc i)) n
