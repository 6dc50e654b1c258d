-- ===== src/Peering/Udp/Flush.antt =====
-- flushOutboxes ends with every outbox empty, and has written what was in them.
use dwcs.Base.{
  suc, String, true, List, [], ◌∷◌, ◌++◌, map, append_assoc, append-nil, ◌≡◌, refl, sym, ap, ◌∙◌,
  arith, Bytes, str_eq, str_eq_refl, if◌then◌else◌, length, any,
}
use dwcs.GoMap.{GoMap, map_values, values}
use dwcs.Drain.{drain_lem}
use dwcs.Peering.Udp.{
  UdpPeer, UdpManager, write_to, write_all, through_peer, flush_one, flush_all, flush_outboxes,
}

-- The messages of a peer as datagrams.
abbrev pub datagrams : UdpPeer → List (String × Bytes)
datagrams p = map (λ msg. (p.addr, msg)) p.outbox

abbrev pub all_datagrams : List UdpPeer → List (String × Bytes)
all_datagrams [] = []
all_datagrams (p ∷ ps) = datagrams p ++ all_datagrams ps

write_all_lem :
    (addr : String) (msgs : List Bytes) (m : UdpManager)
    → m.listening ≡ true
    → write_all addr msgs m ≡ record m { written = m.written ++ map (λ msg. (addr, msg)) msgs }
unfolding write_all write_to
write_all_lem addr [] m on = ground (arith, append-nil m.written)
write_all_lem addr (msg ∷ msgs) m on =
    let m₁ : UdpManager = record m { written = m.written ++ (addr, msg) ∷ [] } in
    let one : write_to addr msg m ≡ m₁ = ground (arith, on) in
    ap (write_all addr msgs) one
    ∙ write_all_lem addr msgs m₁ on
    ∙ ap (λ ds. record m { written = ds })
        (append_assoc m.written ((addr, msg) ∷ []) (map (λ msg. (addr, msg)) msgs))

abbrev pub emptied : UdpPeer → UdpPeer
emptied q = record q { outbox = [] }

-- What the loop over these peers does to a peer.
abbrev flushed : List UdpPeer → UdpPeer → UdpPeer
flushed ps q = if any (λ p. str_eq q.id p.id) ps then emptied q else q

map_values-flushed :
    (p : UdpPeer) (ps : List UdpPeer) (xs : GoMap UdpPeer)
    → map_values (flushed ps) (map_values (λ q. if str_eq q.id p.id then emptied q else q) xs)
      ≡ map_values (flushed (p ∷ ps)) xs
unfolding map_values any
map_values-flushed p ps [] = refl
map_values-flushed p ps ((k, q) ∷ xs) = ground (arith, map_values-flushed p ps xs)

-- The state after the loop over these peers.
abbrev after : List UdpPeer → UdpManager → UdpManager
after ps m = record m {
  book = record m.book { by_id = map_values (flushed ps) m.book.by_id };
  written = m.written ++ all_datagrams ps;
}

flush_one_lem :
    (p : UdpPeer) (m : UdpManager)
    → m.listening ≡ true
    → flush_one p m ≡ record m {
      book = record m.book {
        by_id = map_values (λ q. if str_eq q.id p.id then emptied q else q) m.book.by_id;
      };
      written = m.written ++ datagrams p;
    }
flush_one_lem p m on =
    unfold flush_one in
    rw (drain_lem (suc (length p.outbox)) p.outbox [] (omega arith), flush_one)
      (write_all_lem p.addr p.outbox (through_peer p.id emptied m) (unfold through_peer in on)
        ∙ (unfold through_peer in refl))

map_values-id : (xs : GoMap UdpPeer) → map_values (flushed []) xs ≡ xs
unfolding map_values any
map_values-id [] = refl
map_values-id ((k, q) ∷ xs) = ground (arith, map_values-id xs)

flush_all_lem :
    (ps : List UdpPeer) (m : UdpManager) → m.listening ≡ true → flush_all ps m ≡ after ps m
unfolding flush_all
flush_all_lem [] m on =
    ap (λ xs. record m { book = record m.book { by_id = xs } }) (sym (map_values-id m.book.by_id))
    ∙ ap (λ ds. record (after [] m) { written = ds }) (sym (append-nil m.written))
flush_all_lem (p ∷ ps) m on =
    ap (flush_all ps) (flush_one_lem p m on)
    ∙ flush_all_lem ps _ on
    ∙ ap
        (λ xs. record (after ps m) {
          book = record m.book { by_id = xs };
          written = (m.written ++ datagrams p) ++ all_datagrams ps;
        })
        (map_values-flushed p ps m.book.by_id)
    ∙ ap (λ ds. record (after (p ∷ ps) m) { written = ds })
        (append_assoc m.written (datagrams p) (all_datagrams ps))

any-here :
    (xs : GoMap UdpPeer) (ps : List UdpPeer)
    → ((q : UdpPeer)
        → any (λ p. str_eq q.id p.id) (values xs) ≡ true
        → any (λ p. str_eq q.id p.id) ps ≡ true)
    → map_values (flushed ps) xs ≡ map_values emptied xs
unfolding map_values any
any-here [] ps h = refl
any-here ((k, q) ∷ xs) ps h =
    ground (arith, h q, str_eq_refl q.id, any-here xs ps (λ r a. h r (ground (arith, a))))

-- On a manager that listens, the loop takes every message that waits: it writes them to the
-- addresses of their peers, one peer after the other and each peer's in the order in which they
-- were put there, and leaves every outbox empty and all else as it was.
pub flush_outboxes_lem :
    (m : UdpManager)
    → m.listening ≡ true
    → flush_outboxes m ≡ record m {
      book = record m.book { by_id = map_values emptied m.book.by_id };
      written = m.written ++ all_datagrams (values m.book.by_id);
    }
unfolding flush_outboxes
flush_outboxes_lem m on =
    flush_all_lem (values m.book.by_id) m on
    ∙ ap (λ xs. record (after (values m.book.by_id) m) { book = record m.book { by_id = xs } })
        (any-here m.book.by_id (values m.book.by_id) (λ q h. h))
