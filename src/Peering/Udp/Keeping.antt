-- ===== src/Peering/Udp/Keeping.antt =====
-- Flushes, heartbeats, broadcasts and messages keep what is always so of a UDP manager.
use dwcs.Base.{
  ℕ, suc, ◌≤◌, String, true, false, none, List, [], ◌∷◌, ◌≡◌, refl, sym, subst, inl, inr, arith,
  Result, ok, err, Bytes, Bool-cases, str_eq, length, length-append,
}
use dwcs.GoMap.{values}
use dwcs.Protocol.{Codec, Envelope, encode, msg_ping, msg_pong}
use dwcs.Drain.{drain, drain_lem}
use dwcs.Peering.Events.{PeerEvent, emit, message}
use dwcs.Peering.Udp.{
  UdpPeer, UdpManager, push, through_peer, deliver, flush_one, flush_all, send_heartbeats,
}
use dwcs.Peering.Udp.Sound.{
  IsSound, IsSoundAt, emit-length, write_to-IsSound, write_all-IsSound, write_each-IsSound,
  through_peer-IsSound,
}

module _ (peer_id : ℕ → ℕ → String) where
  pub flush_one-IsSound :
      (n : ℕ) (p : UdpPeer) (m : UdpManager)
      → IsSoundAt peer_id n m
      → IsSoundAt peer_id n (flush_one p m)
  unfolding flush_one
  flush_one-IsSound n p m s =
      let (left, taken) = drain (suc (length p.outbox)) p.outbox [] in
      let f : UdpPeer → UdpPeer = λ q. record q { outbox = left } in
      let none_left : length left ≤ 256 =
        subst (λ (x : List Bytes × List Bytes). length x.0 ≤ 256)
          (sym (drain_lem (suc (length p.outbox)) p.outbox [] (omega arith))) (omega arith) in
      write_all-IsSound peer_id n p.addr taken (through_peer p.id f m)
        (through_peer-IsSound peer_id n p.id f m (λ q. (refl, refl, λ h. none_left)) s)

  pub flush_all-IsSound :
      (n : ℕ) (ps : List UdpPeer) (m : UdpManager)
      → IsSoundAt peer_id n m
      → IsSoundAt peer_id n (flush_all ps m)
  unfolding flush_all
  flush_all-IsSound n [] m s = s
  flush_all-IsSound n (p ∷ ps) m s =
      flush_all-IsSound n ps (flush_one p m) (flush_one-IsSound n p m s)

  pub heartbeats-IsSound :
      (c : Codec) (n : ℕ) (m : UdpManager)
      → IsSoundAt peer_id n m
      → IsSoundAt peer_id n (send_heartbeats c m)
  heartbeats-IsSound c n m s = split (encode c msg_ping "" none) refl
    where
      split :
          (x : Result String Bytes)
          → encode c msg_ping "" none ≡ x
          → IsSoundAt peer_id n (send_heartbeats c m)
      split (err e) q = unfold send_heartbeats in rw (q, send_heartbeats) s
      split (ok ping) q =
          unfold send_heartbeats in
          rw (q, send_heartbeats) (write_each-IsSound peer_id n ping (values m.book.by_id) m s)

  pub push-keeps :
      (msg : Bytes) (p : UdpPeer)
      → ((push msg p).id ≡ p.id)
        × ((push msg p).addr ≡ p.addr)
        × (length p.outbox ≤ 256 → length (push msg p).outbox ≤ 256)
  unfolding push
  push-keeps msg p =
      (ground arith, ground arith, λ h. ground (arith, length-append p.outbox (msg ∷ [])))

  pub emitted-IsSound :
      (n : ℕ) (evt : PeerEvent) (m : UdpManager)
      → IsSoundAt peer_id n m
      → IsSound peer_id n m.book m.counter (emit evt m.events)
  emitted-IsSound n evt m s = record {
    paired = s.paired;
    counted = s.counted;
    numbered = s.numbered;
    bounded = s.bounded;
    queued = emit-length peer_id evt m.events s.queued;
  }

  pub deliver-IsSound :
      (c : Codec) (n : ℕ) (id addr : String) (env : Envelope) (m : UdpManager)
      → IsSoundAt peer_id n m
      → IsSoundAt peer_id n (deliver peer_id c id addr env m)
  unfolding deliver
  deliver-IsSound c n id addr env m s = elim (Bool-cases (str_eq env.msg_type msg_pong)) [
    | inl e ↦ rw (e, deliver) s
    | inr e ↦ elim (Bool-cases (str_eq env.msg_type msg_ping)) [
      | inl e' ↦ answer e e' (encode c msg_pong env.request_id none) refl
      | inr e' ↦ rw (e, e', deliver) (emitted-IsSound n (message id env) m s)
    ]
  ]
    where
      answer :
          str_eq env.msg_type msg_pong ≡ false
          → str_eq env.msg_type msg_ping ≡ true
          → (x : Result String Bytes) → encode c msg_pong env.request_id none ≡ x
          → IsSoundAt peer_id n (deliver peer_id c id addr env m)
      answer e e' (err w) q = rw (e, e', q, deliver) s
      answer e e' (ok pong) q = rw (e, e', q, deliver) (write_to-IsSound peer_id n addr pong m s)
