-- ===== src/Peering/Udp/Datagrams.antt =====
-- What a datagram does for the peer that sent it, and what evictExpired does to all of them.
use dwcs.Base.{
  ℕ, suc, ◌+◌, ◌-◌, ◌*◌, ◌^◌, ◌≤◌, ◌<◌, String, Bool, false, none, some, [], ◌∷◌, ◌≡◌, refl, sym,
  ap, ◌∙◌, subst, inl, inr, arith, Result, ok, err, Bytes, second, Option-cases, Bool-cases, str_eq,
  str_eq_iff, if◌then◌else◌, ltb, keep, any, All, All-keep,
}
use dwcs.GoMap.{GoMap, lookup, values}
use dwcs.GoMap.Laws.{lookup-map_values, lookup-insert_self}
use dwcs.AddrBook.{Book, enter}
use dwcs.GoMap.Entries.{any-keep-values, All-lookup}
use dwcs.AddrBook.Laws.{IsPaired, InPlace, lookup-drop_all, drop_all-IsPaired, values-Matched}
use dwcs.Protocol.{Codec, Envelope, encode, msg_pong}
use dwcs.Peering.Udp.{
  UdpPeer, UdpManager, through_peer, find_peer, new_peer, new_udp_peer, deliver, handle_datagram,
  touch, evict_expired, is_expired, write_to,
}
use dwcs.Peering.Udp.Sound.{IsSoundAt}
use dwcs.Peering.Udp.Invariant.{handle_datagram-IsSound}

module _ (p : UdpPeer) (id : String) (q : UdpPeer → Bool) where
  -- No other peer among the values has this id.
  any-keep :
      (b : Book UdpPeer) (xs : GoMap UdpPeer)
      → All (InPlace (λ (p : UdpPeer). p.id) (λ p. p.addr) b) xs
      → lookup id b.by_id ≡ some p
      → q p ≡ false
      → any (λ v. str_eq v.id id) (keep q (values xs)) ≡ false
  unfolding any keep
  any-keep b [] h found stays = refl
  any-keep b ((k, v) ∷ xs) h found stays = elim (Bool-cases (str_eq v.id id)) [
    | inl e ↦
        (let same : v.id ≡ id = (str_eq_iff v.id id).0 e in
          let here : v ≡ p =
            ground (arith, h.0, found, ap (λ j. lookup j b.by_id) (sym h.0.0 ∙ same)) in
          let stays_v : q v ≡ false = ap q here ∙ stays in
          ground (arith, stays_v, any-keep b xs h.1 found stays))
    | inr e ↦ ground (arith, e, any-keep b xs h.1 found stays)
  ]

-- Of a manager whose maps agree, evictExpired takes the peers out that were not heard from for more
-- than 30 seconds, and leaves each of the others as it was.
pub lookup-evict_expired :
    (now : String → ℕ) (m : UdpManager) (id : String)
    → IsPaired (λ (p : UdpPeer). p.id) (λ p. p.addr) m.book
    → lookup id (evict_expired now m).book.by_id ≡ elim (lookup id m.book.by_id) [
      | none ↦ none
      | some p ↦ if ltb 30000000000 (now id - p.last_seen) then none else some p
    ]
unfolding evict_expired
lookup-evict_expired now m id paired =
    let gone = keep (λ p. is_expired (now p.id) p) (values m.book.by_id) in
    let left = lookup-drop_all (λ (p : UdpPeer). p.id) (λ p. p.addr) gone m.book id in
    elim (Option-cases (lookup id m.book.by_id)) [
      | inl missing ↦ ground (arith, left, missing)
      | inr (p, found) ↦
          (let own : p.id ≡ id = (All-lookup _ id p m.book.by_id paired.forth found).0 in
            let none_else =
              any-keep p id (λ p. is_expired (now p.id) p) m.book m.book.by_id paired.forth found in
            let taken =
              any-keep-values (λ (p : UdpPeer). p.id) p id (λ p. is_expired (now p.id) p)
                m.book.by_id found own in
            let by_age : is_expired (now p.id) p ≡ ltb 30000000000 (now id - p.last_seen) =
              unfold is_expired in ap (λ k. ltb 30000000000 (now k - p.last_seen)) own in
            ground (arith, left, found, none_else, taken, by_age))
    ]

module _ (peer_id : ℕ → ℕ → String) (c : Codec) where
  deliver-book :
      (id addr : String) (env : Envelope) (m : UdpManager)
      → (deliver peer_id c id addr env m).book ≡ m.book
  unfolding deliver write_to
  deliver-book id addr env m = split (encode c msg_pong env.request_id none) refl
    where
      split :
          (x : Result String Bytes)
          → encode c msg_pong env.request_id none ≡ x
          → (deliver peer_id c id addr env m).book ≡ m.book
      split (err e) q = rw (q, deliver) (ground arith)
      split (ok pong) q = rw (q, deliver) (ground arith)

  -- The peer that the address leads to was touched at `now`.
  abbrev pub HasTouched : String → ℕ → Book UdpPeer → Type 0
  HasTouched addr now b =
      (id : String) × (p : UdpPeer) × (lookup addr b.by_addr ≡ some id)
      × (lookup id b.by_id ≡ some p)
      × (p.last_seen ≡ now)

  find_peer-finds :
      (addr : String) (stamp made : ℕ) (m : UdpManager)
      → IsPaired (λ (p : UdpPeer). p.id) (λ p. p.addr) m.book
      → let (id, m₁) = find_peer peer_id addr stamp made m in
        (p : UdpPeer) × (lookup addr m₁.book.by_addr ≡ some id)
        × (lookup id m₁.book.by_id ≡ some p)
        × (p.id ≡ id)
  unfolding find_peer new_peer new_udp_peer enter
  find_peer-finds addr stamp made m paired = elim (Option-cases (lookup addr m.book.by_addr)) [
    | inl missing ↦
        rw (missing, find_peer)
          (_, lookup-insert_self addr _ m.book.by_addr, lookup-insert_self _ _ m.book.by_id, refl)
    | inr (id, there) ↦
        (let (p, found, at) = paired.back addr id there in
          rw (there, find_peer)
            (p, there, found, (All-lookup _ id p m.book.by_id paired.forth found).0))
  ]

  touched-HasTouched :
      (addr id : String) (now : ℕ) (m : UdpManager) (p : UdpPeer)
      → lookup addr m.book.by_addr ≡ some id
      → lookup id m.book.by_id ≡ some p
      → p.id ≡ id
      → HasTouched addr now (through_peer id (touch now) m).book
  unfolding through_peer touch
  touched-HasTouched addr id now m p there found own = (
    id,
    record p { last_seen = now },
    there,
    ground (
      arith,
      lookup-map_values id
          (λ (p : UdpPeer). if str_eq p.id id then record p { last_seen = now } else p)
          m.book.by_id,
      found,
      str_eq_iff p.id id,
      own,
    ),
    refl,
  )

  handle_datagram-HasTouched :
      (addr : String) (datagram : Bytes) (stamp made now : ℕ) (m : UdpManager)
      → IsPaired (λ (p : UdpPeer). p.id) (λ p. p.addr) m.book
      → HasTouched addr now (handle_datagram peer_id c addr datagram stamp made now m).book
  handle_datagram-HasTouched addr datagram stamp made now m paired =
      split (c.unmarshal_envelope datagram) refl
    where
      touched :
          let (id, m₁) = find_peer peer_id addr stamp made m in
          HasTouched addr now (through_peer id (touch now) m₁).book
      touched =
          let (id, m₁) = find_peer peer_id addr stamp made m in
          let (p, there, found, own) = find_peer-finds addr stamp made m paired in
          touched-HasTouched addr id now m₁ p there found own

      split :
          (x : Result String Envelope)
          → c.unmarshal_envelope datagram ≡ x
          → HasTouched addr now (handle_datagram peer_id c addr datagram stamp made now m).book
      split (err e) q = unfold handle_datagram in rw (q, handle_datagram) touched
      split (ok env) q =
          unfold handle_datagram in
          rw (q, handle_datagram)
            (subst (HasTouched addr now) (sym (deliver-book _ addr env _)) touched)

  evict_expired-HasTouched :
      (addr : String) (now : ℕ) (later : String → ℕ) (m : UdpManager)
      → IsPaired (λ (p : UdpPeer). p.id) (λ p. p.addr) m.book
      → ((id : String) → later id ≤ now + 30 * second)
      → HasTouched addr now m.book
      → HasTouched addr now (evict_expired later m).book
  evict_expired-HasTouched addr now later m paired soon (id, p, there, found, seen) =
      let gone = keep (λ p. is_expired (later p.id) p) (values m.book.by_id) in
      let still_paired : IsPaired (λ (p : UdpPeer). p.id) (λ p. p.addr)
          (evict_expired later m).book =
        unfold evict_expired in
        drop_all-IsPaired (λ (p : UdpPeer). p.id) (λ p. p.addr) gone m.book
          (All-keep _ (λ p. is_expired (later p.id) p) (values m.book.by_id)
            (values-Matched (λ (p : UdpPeer). p.id) (λ p. p.addr) m.book paired))
          paired in
      let stays : lookup id (evict_expired later m).book.by_id ≡ some p =
        ground (arith, lookup-evict_expired later m id paired, found, seen, soon id) in
      let (own, leads, again) =
        All-lookup _ id p (evict_expired later m).book.by_id still_paired.forth stays in
      let at : p.addr ≡ addr =
        (let (q, found_q, at_q) = paired.back addr id there in
          ground (arith, found, found_q, at_q)) in
      (id, p, ap (λ a. lookup a (evict_expired later m).book.by_addr) (sym at) ∙ leads, stays, seen)

  -- On a manager for which IsSound holds, as it does after any history, and before 2^64 calls,
  -- where ids made with different counts differ: whatever a datagram says, its address leads to
  -- a peer that was heard from at `now`, also when the expired peers are evicted up to 30
  -- seconds later.
  pub evict_expired-handle_datagram :
      (addr : String) (datagram : Bytes) (stamp made now n : ℕ) (later : String → ℕ)
      (m : UdpManager)
      → ((t k t' k' : ℕ) → peer_id t k ≡ peer_id t' k' → k ≡ k')
      → suc n < 2 ^ 64
      → IsSoundAt peer_id n m
      → ((id : String) → later id ≤ now + 30 * second)
      → HasTouched addr now
          (evict_expired later (handle_datagram peer_id c addr datagram stamp made now m)).book
  evict_expired-handle_datagram addr datagram stamp made now n later m distinct small s soon =
      let s' =
        handle_datagram-IsSound peer_id distinct c addr datagram stamp made now n m small s in
      evict_expired-HasTouched addr now later
        (handle_datagram peer_id c addr datagram stamp made now m) s'.paired soon
        (handle_datagram-HasTouched addr datagram stamp made now m s.paired)
