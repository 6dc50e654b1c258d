-- ===== src/Peering/Udp/Invariant.antt =====
-- The two maps of the UDP manager agree, over any history.
use dwcs.Base.{
  ℕ, suc, ◌+◌, ◌^◌, ◌<◌, String, none, List, [], ◌∷◌, ◌≡◌, refl, subst, inl, inr, arith, Result, ok,
  err, Bytes, next_uint64, Option-cases, length, All-map,
}
use dwcs.GoMap.{lookup, values}
use dwcs.AddrBook.{enter}
use dwcs.GoMap.Entries.{All-insert, All-lookup}
use dwcs.AddrBook.Laws.{empty-IsPaired, enter-IsPaired}
use dwcs.Protocol.{Codec, Envelope}
use dwcs.Peering.Events.{emit, connected}
use dwcs.Peering.Udp.{
  UdpPeer, UdpManager, new_udp_manager, push, touch, through_peer, new_peer, find_peer, dial,
  handle_datagram, flush_outboxes, broadcast, push_except, broadcast_except, stop, new_udp_peer,
}
use dwcs.Peering.Udp.Calls.{
  Call, receives, dials, flushes, heartbeats, stops, evicts, sends, sends_except, step, run,
}
use dwcs.Peering.Udp.Sound.{
  IsSound, IsSoundAt, emit-length, mapped-IsSound, evicted-IsSound, IsSound-suc,
  through_peer-IsSound,
}
use dwcs.Peering.Udp.Keeping.{flush_all-IsSound, heartbeats-IsSound, push-keeps, deliver-IsSound}

module _ (peer_id : ℕ → ℕ → String) where
  module _ (distinct : (t k t' k' : ℕ) → peer_id t k ≡ peer_id t' k' → k ≡ k') where
    made-IsSound :
        (addr : String) (stamp now n : ℕ) (m : UdpManager)
        → suc n < 2 ^ 64
        → lookup addr m.book.by_addr ≡ none
        → IsSoundAt peer_id n m
        → let (id, m₁) = new_peer peer_id addr stamp now m in
          IsSound peer_id (suc n) m₁.book m₁.counter (emit (connected id) m₁.events)
    unfolding new_peer enter
    made-IsSound addr stamp now n m small missing s =
        let k = next_uint64 m.counter in
        let id = peer_id stamp k in
        let p = new_udp_peer id addr now in
        let next : k ≡ suc m.counter = omega (arith, s.counted, small) in
        let unused : lookup id m.book.by_id ≡ none = elim (Option-cases (lookup id m.book.by_id)) [
          | inl none_there ↦ none_there
          | inr (q, found) ↦
              (let (t, j, e, le) = All-lookup _ id q m.book.by_id s.numbered found in
                absurd (omega (arith, distinct stamp k t j e, le, next)))
        ] in
        record {
          paired =
              unfold new_udp_peer in
              enter-IsPaired (λ (q : UdpPeer). q.id) (λ q. q.addr) m.book p unused missing s.paired;
          counted = omega (arith, next, s.counted);
          numbered =
              All-insert _ id p m.book.by_id (stamp, k, refl, omega arith)
                (All-map _ _ m.book.by_id (λ e h. (h.0, h.1, h.2, omega (arith, h.3, next)))
                  s.numbered);
          bounded = All-insert _ id p m.book.by_id (unfold new_udp_peer in omega arith) s.bounded;
          queued = emit-length peer_id (connected id) m.events s.queued;
        }

    find_peer-IsSound :
        (addr : String) (stamp now n : ℕ) (m : UdpManager)
        → suc n < 2 ^ 64
        → IsSoundAt peer_id n m
        → IsSoundAt peer_id (suc n) (find_peer peer_id addr stamp now m).1
    unfolding find_peer
    find_peer-IsSound addr stamp now n m small s =
        elim (Option-cases (lookup addr m.book.by_addr)) [
          | inl missing ↦ rw (missing, find_peer) (made-IsSound addr stamp now n m small missing s)
          | inr (id, there) ↦
              rw (there, find_peer) (IsSound-suc peer_id n m.book m.counter m.events s)
        ]

    dial-IsSound :
        (key : Result String String) (addr : String) (stamp now n : ℕ) (m : UdpManager)
        → suc n < 2 ^ 64
        → IsSoundAt peer_id n m
        → IsSoundAt peer_id (suc n) (dial peer_id key addr stamp now m).1
    unfolding dial
    dial-IsSound (err e) addr stamp now n m small s =
        IsSound-suc peer_id n m.book m.counter m.events s
    dial-IsSound (ok key) addr stamp now n m small s =
        elim (Option-cases (lookup key m.book.by_addr)) [
          | inl missing ↦ rw (missing, dial) (made-IsSound key stamp now n m small missing s)
          | inr (id, there) ↦ rw (there, dial) (IsSound-suc peer_id n m.book m.counter m.events s)
        ]

    pub handle_datagram-IsSound :
        (c : Codec) (addr : String) (datagram : Bytes) (stamp made now n : ℕ) (m : UdpManager)
        → suc n < 2 ^ 64
        → IsSoundAt peer_id n m
        → IsSoundAt peer_id (suc n) (handle_datagram peer_id c addr datagram stamp made now m)
    handle_datagram-IsSound c addr datagram stamp made now n m small s =
        split (c.unmarshal_envelope datagram) refl
      where
        touched :
            let (id, m₁) = find_peer peer_id addr stamp made m in
            IsSoundAt peer_id (suc n) (through_peer id (touch now) m₁)
        touched =
            let (id, m₁) = find_peer peer_id addr stamp made m in
            through_peer-IsSound peer_id (suc n) id (touch now) m₁
              (λ p. unfold touch in (refl, refl, λ h. h))
              (find_peer-IsSound addr stamp made n m small s)

        split :
            (x : Result String Envelope)
            → c.unmarshal_envelope datagram ≡ x
            → IsSoundAt peer_id (suc n) (handle_datagram peer_id c addr datagram stamp made now m)
        split (err e) q = unfold handle_datagram in rw (q, handle_datagram) touched
        split (ok env) q =
            unfold handle_datagram in
            rw (q, handle_datagram) (deliver-IsSound peer_id c (suc n) _ addr env _ touched)

    step-IsSound :
        (c : Codec) (n : ℕ) (m : UdpManager) (x : Call)
        → suc n < 2 ^ 64
        → IsSoundAt peer_id n m
        → IsSoundAt peer_id (suc n) (step peer_id c m x)
    unfolding step broadcast broadcast_except stop flush_outboxes
    step-IsSound c n m (receives addr datagram stamp made now) small s =
        handle_datagram-IsSound c addr datagram stamp made now n m small s
    step-IsSound c n m (dials key addr stamp now) small s =
        dial-IsSound key addr stamp now n m small s
    step-IsSound c n m flushes small s =
        IsSound-suc peer_id n _ _ _ (flush_all-IsSound peer_id n (values m.book.by_id) m s)
    step-IsSound c n m heartbeats small s =
        IsSound-suc peer_id n _ _ _ (heartbeats-IsSound peer_id c n m s)
    step-IsSound c n m stops small s = IsSound-suc peer_id n m.book m.counter m.events s
    step-IsSound c n m (evicts now) small s =
        IsSound-suc peer_id n _ _ _ (evicted-IsSound peer_id now n m s)
    step-IsSound c n m (sends msg) small s =
        IsSound-suc peer_id n _ _ _
          (mapped-IsSound peer_id (push msg) n m.book m.counter m.events (push-keeps peer_id msg) s)
    step-IsSound c n m (sends_except msg except) small s = IsSound-suc peer_id n _ _ _ (
        mapped-IsSound peer_id (push_except msg except) n m.book m.counter m.events
          (λ p.
            unfold push_except in
            (
              ground (arith, push-keeps peer_id msg p),
              ground (arith, push-keeps peer_id msg p),
              ground (arith, push-keeps peer_id msg p),
            ))
          s)

    run-IsSound :
        (c : Codec) (xs : List Call) (n : ℕ) (m : UdpManager)
        → n + length xs < 2 ^ 64
        → IsSoundAt peer_id n m
        → IsSoundAt peer_id (n + length xs) (run peer_id c m xs)
    unfolding run
    run-IsSound c [] n m small s =
        (let e : n ≡ n + 0 = omega arith in subst (λ (k : ℕ). IsSoundAt peer_id k m) e s)
    run-IsSound c (x ∷ xs) n m small s =
        (let e : suc n + length xs ≡ n + suc (length xs) = omega arith in
          subst (λ (k : ℕ). IsSoundAt peer_id k (run peer_id c (step peer_id c m x) xs)) e
            (run-IsSound c xs (suc n) (step peer_id c m x) (omega (arith, small))
              (step-IsSound c n m x (omega (arith, small)) s)))

    -- After any history of fewer than 2^64 calls on a new manager, whatever the datagrams say, each peer
    -- stands under its own id and its address leads to it, and each address that leads anywhere leads
    -- to the peer with that address: so there is one peer for each address, and none that was evicted
    -- is still led to. No outbox holds more than 256 messages, and at most 1024 events wait. It is
    -- assumed that ids made with different counts differ.
    pub run-new_udp_manager-IsSound :
        (c : Codec) (xs : List Call)
        → length xs < 2 ^ 64
        → IsSoundAt peer_id (length xs) (run peer_id c new_udp_manager xs)
    unfolding new_udp_manager
    run-new_udp_manager-IsSound c xs small =
        (let e : 0 + length xs ≡ length xs = omega arith in
          let start : IsSoundAt peer_id 0 new_udp_manager = record {
            paired = empty-IsPaired (λ (p : UdpPeer). p.id) (λ p. p.addr);
            counted = omega arith;
            numbered = tt;
            bounded = tt;
            queued = omega arith;
          } in
          subst (λ (k : ℕ). IsSoundAt peer_id k (run peer_id c new_udp_manager xs)) e
            (run-IsSound c xs 0 new_udp_manager (omega (arith, small)) start))
