-- ===== src/Peering/Udp/Sound.antt =====
-- What is always so of a UDP manager, and that its parts keep it.
use dwcs.Base.{
  ℕ, suc, ◌≤◌, String, List, [], ◌∷◌, ◌≡◌, arith, Bytes, str_eq, if◌then◌else◌, length,
  length-append, keep, All, All-keep,
}
use dwcs.GoMap.{map_values, values}
use dwcs.AddrBook.{Book}
use dwcs.GoMap.Entries.{All-map_values}
use dwcs.AddrBook.Laws.{
  IsPaired, drop_all-IsPaired, values-Matched, map_values-IsPaired, All-drop_all,
}
use dwcs.Peering.Events.{PeerEvent, emit, closed}
use dwcs.Peering.Udp.{
  UdpPeer, UdpManager, write_to, through_peer, write_all, emit_closed, evict_expired, is_expired,
  write_each,
}

module _ (peer_id : ℕ → ℕ → String) where
  -- Peers and addresses agree, every id was made with a count so far, and outboxes and events are
  -- within their bounds.
  pub record IsSound (n : ℕ) (b : Book UdpPeer) (count : ℕ) (events : List PeerEvent) : Type 0 where
    pub paired : IsPaired (λ (p : UdpPeer). p.id) (λ p. p.addr) b
    pub counted : count ≤ n
    pub numbered : All (λ e. (t : ℕ) × (k : ℕ) × (e.0 ≡ peer_id t k) × (k ≤ count)) b.by_id
    pub bounded : All (λ e. length e.1.outbox ≤ 256) b.by_id
    pub queued : length events ≤ 1024

  abbrev pub IsSoundAt : ℕ → UdpManager → Type 0
  IsSoundAt n m = IsSound n m.book m.counter m.events

  pub emit-length :
      (evt : PeerEvent) (events : List PeerEvent)
      → length events ≤ 1024
      → length (emit evt events) ≤ 1024
  unfolding emit
  emit-length evt events h = ground (arith, length-append events (evt ∷ []))

  pub mapped-IsSound :
      (f : UdpPeer → UdpPeer) (n : ℕ) (b : Book UdpPeer) (count : ℕ) (events : List PeerEvent)
      → ((p : UdpPeer)
          → ((f p).id ≡ p.id)
            × ((f p).addr ≡ p.addr)
            × (length p.outbox ≤ 256 → length (f p).outbox ≤ 256))
      → IsSound n b count events
      → IsSound n (record b { by_id = map_values f b.by_id }) count events
  mapped-IsSound f n b count events keeps s = record {
    paired =
        map_values-IsPaired (λ (p : UdpPeer). p.id) (λ p. p.addr) f b
          (λ p. ((keeps p).0, (keeps p).1)) s.paired;
    counted = s.counted;
    numbered = All-map_values _ _ f b.by_id (λ k v h. h) s.numbered;
    bounded = All-map_values _ _ f b.by_id (λ k v h. (keeps v).2 h) s.bounded;
    queued = s.queued;
  }

  pub evicted-IsSound :
      (now : String → ℕ) (n : ℕ) (m : UdpManager)
      → IsSoundAt n m
      → IsSoundAt n (evict_expired now m)
  unfolding evict_expired
  evicted-IsSound now n m s =
      let gone = keep (λ p. is_expired (now p.id) p) (values m.book.by_id) in
      record {
        paired =
            drop_all-IsPaired (λ (p : UdpPeer). p.id) (λ p. p.addr) gone m.book
              (All-keep _ (λ p. is_expired (now p.id) p) (values m.book.by_id)
                (values-Matched (λ (p : UdpPeer). p.id) (λ p. p.addr) m.book s.paired))
              s.paired;
        counted = s.counted;
        numbered = All-drop_all _ (λ (p : UdpPeer). p.id) (λ p. p.addr) gone m.book s.numbered;
        bounded = All-drop_all _ (λ (p : UdpPeer). p.id) (λ p. p.addr) gone m.book s.bounded;
        queued = all_closed gone m.events s.queued;
      }
    where
      all_closed :
          (ps : List UdpPeer) (events : List PeerEvent)
          → length events ≤ 1024
          → length (emit_closed ps events) ≤ 1024
      all_closed [] events h = unfold emit_closed in h
      all_closed (p ∷ ps) events h =
          unfold emit_closed in all_closed ps _ (emit-length (closed p.id) events h)

  -- A manager that has counted fewer calls is sound for more.
  pub IsSound-suc :
      (n : ℕ) (b : Book UdpPeer) (count : ℕ) (events : List PeerEvent)
      → IsSound n b count events
      → IsSound (suc n) b count events
  IsSound-suc n b count events s = record {
    paired = s.paired;
    counted = omega (arith, s.counted);
    numbered = s.numbered;
    bounded = s.bounded;
    queued = s.queued;
  }

  pub same-IsSound :
      (n : ℕ) (m m' : UdpManager)
      → m'.book ≡ m.book
      → m'.counter ≡ m.counter
      → m'.events ≡ m.events
      → IsSoundAt n m
      → IsSoundAt n m'
  same-IsSound n m m' b k e s = rw (b, k, e) s

  pub write_to-IsSound :
      (n : ℕ) (addr : String) (msg : Bytes) (m : UdpManager)
      → IsSoundAt n m
      → IsSoundAt n (write_to addr msg m)
  unfolding write_to
  write_to-IsSound n addr msg m =
      same-IsSound n m (write_to addr msg m) (ground arith) (ground arith) (ground arith)

  pub write_all-IsSound :
      (n : ℕ) (addr : String) (msgs : List Bytes) (m : UdpManager)
      → IsSoundAt n m
      → IsSoundAt n (write_all addr msgs m)
  unfolding write_all
  write_all-IsSound n addr [] m s = s
  write_all-IsSound n addr (msg ∷ msgs) m s =
      write_all-IsSound n addr msgs (write_to addr msg m) (write_to-IsSound n addr msg m s)

  pub write_each-IsSound :
      (n : ℕ) (msg : Bytes) (ps : List UdpPeer) (m : UdpManager)
      → IsSoundAt n m
      → IsSoundAt n (write_each msg ps m)
  unfolding write_each
  write_each-IsSound n msg [] m s = s
  write_each-IsSound n msg (p ∷ ps) m s =
      write_each-IsSound n msg ps (write_to p.addr msg m) (write_to-IsSound n p.addr msg m s)

  pub through_peer-IsSound :
      (n : ℕ) (id : String) (f : UdpPeer → UdpPeer) (m : UdpManager)
      → ((p : UdpPeer)
          → ((f p).id ≡ p.id)
            × ((f p).addr ≡ p.addr)
            × (length p.outbox ≤ 256 → length (f p).outbox ≤ 256))
      → IsSoundAt n m
      → IsSoundAt n (through_peer id f m)
  unfolding through_peer
  through_peer-IsSound n id f m keeps s =
      mapped-IsSound (λ p. if str_eq p.id id then f p else p) n m.book m.counter m.events
        (λ p. (ground (arith, keeps p), ground (arith, keeps p), ground (arith, keeps p))) s
