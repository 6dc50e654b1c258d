-- ===== src/Transport/Udp/Answers.antt =====
-- What waits for a client reaches it: flushOutboxes writes each outbox to the address of its client.
use dwcs.Base.{
  suc, String, true, none, some, List, [], ◌∷◌, ◌++◌, map, append_assoc, append-nil, ◌≡◌, refl, sym,
  ap, ◌∙◌, inl, inr, arith, Bytes, Option-cases, Bool-cases, str_eq, str_eq_iff, if◌then◌else◌,
  length, any, All,
}
use dwcs.GoMap.{GoMap, lookup, values, adjust}
use dwcs.GoMap.Laws.{map_option, lookup-adjust}
use dwcs.AddrBook.{Book}
use dwcs.GoMap.Entries.{All-lookup}
use dwcs.AddrBook.Laws.{IsPaired, InPlace}
use dwcs.Drain.{drain_lem}
use dwcs.Session.{Session}
use dwcs.Session
use dwcs.Transport.Udp.{
  UdpClient, UdpServer, write_to, write_all, leave, flush_one, flush_all, flush_outboxes,
}

abbrev pub as_datagrams : String → List Bytes → List (String × Bytes)
as_datagrams addr = map (λ msg. (addr, msg))

abbrev pub drained : Session → Session
drained sess = record sess { outbox = [] }

write_all_lem :
    (addr : String) (msgs : List Bytes) (s : UdpServer)
    → write_all addr msgs s ≡ record s { written = s.written ++ as_datagrams addr msgs }
unfolding write_all write_to
write_all_lem addr [] s = ap (λ ds. record s { written = ds }) (sym (append-nil s.written))
write_all_lem addr (msg ∷ msgs) s =
    write_all_lem addr msgs _
    ∙ ap (λ ds. record s { written = ds })
        (append_assoc s.written ((addr, msg) ∷ []) (as_datagrams addr msgs))

-- The sessions of the manager.
abbrev sessions : UdpServer → GoMap Session
sessions s = s.server.outer.manager.sessions

flush_one_lem :
    (e : UdpClient) (s : UdpServer) (sess : Session)
    → lookup e.session_id (sessions s) ≡ some sess
    → (sessions (flush_one e s) ≡ adjust e.session_id drained (sessions s))
      × ((flush_one e s).written ≡ s.written ++ as_datagrams e.addr sess.outbox)
flush_one_lem e s sess found =
    let all = drain_lem (suc (length sess.outbox)) sess.outbox [] (omega arith) in
    unfold flush_one Session.get leave in
    rw (found, flush_one, Session.get, all, write_all_lem) (refl, refl)

flush_one-missing :
    (e : UdpClient) (s : UdpServer) → lookup e.session_id (sessions s) ≡ none → flush_one e s ≡ s
flush_one-missing e s missing =
    unfold flush_one Session.get in rw (missing, flush_one, Session.get) refl

-- What is written stays written.
flush_all-grows :
    (es : List UdpClient) (s : UdpServer)
    → (ys : List (String × Bytes)) × ((flush_all es s).written ≡ s.written ++ ys)
unfolding flush_all
flush_all-grows [] s = ([], sym (append-nil s.written))
flush_all-grows (e ∷ es) s =
    let (ys, grows) = flush_all-grows es (flush_one e s) in
    elim (Option-cases (lookup e.session_id (sessions s))) [
      | inl missing ↦
          (ys, grows ∙ ap (λ (x : UdpServer). x.written ++ ys) (flush_one-missing e s missing))
      | inr (sess, found) ↦ (
        as_datagrams e.addr sess.outbox ++ ys,
        grows
            ∙ ap (λ ds. ds ++ ys) (flush_one_lem e s sess found).1
            ∙ append_assoc s.written (as_datagrams e.addr sess.outbox) ys,
      )
    ]

-- What the loop over one client does to a session.
flush_one-session :
    (e : UdpClient) (s : UdpServer) (id : String)
    → lookup id (sessions (flush_one e s)) ≡ (
        if str_eq e.session_id id
        then map_option drained (lookup id (sessions s))
        else lookup id (sessions s))
flush_one-session e s id = elim (Option-cases (lookup e.session_id (sessions s))) [
  | inl missing ↦
      ap (λ (x : UdpServer). lookup id (sessions x)) (flush_one-missing e s missing)
      ∙ ground (
        arith,
        missing,
        str_eq_iff e.session_id id,
        λ (q : e.session_id ≡ id). ap (λ j. lookup j (sessions s)) q,
      )
  | inr (sess, found) ↦
      ap (lookup id) (flush_one_lem e s sess found).0
      ∙ lookup-adjust e.session_id id drained (sessions s)
]

flush_all-drained :
    (es : List UdpClient) (s : UdpServer) (id : String) (x : Session)
    → lookup id (sessions s) ≡ some (drained x)
    → lookup id (sessions (flush_all es s)) ≡ some (drained x)
unfolding flush_all
flush_all-drained [] s id x there = there
flush_all-drained (e ∷ es) s id x there =
    flush_all-drained es (flush_one e s) id x (flush_one-session e s id ∙ ground (arith, there))

-- The loop reaches the session of a client that is among these.
flush_all-reaches :
    (es : List UdpClient) (s : UdpServer) (id addr : String) (sess : Session)
    → All (λ x. x.session_id ≡ id → x.addr ≡ addr) es
    → any (λ x. str_eq x.session_id id) es ≡ true
    → lookup id (sessions s) ≡ some sess
    → (xs : List (String × Bytes)) × (ys : List (String × Bytes)) × ((flush_all es s).written
        ≡ s.written ++ (xs ++ (as_datagrams addr sess.outbox ++ ys)))
      × (lookup id (sessions (flush_all es s)) ≡ some (drained sess))
unfolding flush_all any
flush_all-reaches [] s id addr sess at here found = absurd (ground (arith, here))
flush_all-reaches (e ∷ es) s id addr sess at here found =
    elim (Bool-cases (str_eq e.session_id id)) [
      | inl same ↦
          (let own : e.session_id ≡ id = (str_eq_iff e.session_id id).0 same in
            let found_e : lookup e.session_id (sessions s) ≡ some sess =
              ap (λ j. lookup j (sessions s)) own ∙ found in
            let (ys, grows) = flush_all-grows es (flush_one e s) in
            (
              [],
              ys,
              grows
                  ∙ ap (λ ds. ds ++ ys) (flush_one_lem e s sess found_e).1
                  ∙ append_assoc s.written (as_datagrams e.addr sess.outbox) ys
                  ∙ ap (λ a. s.written ++ (as_datagrams a sess.outbox ++ ys)) (at.0 own),
              flush_all-drained es (flush_one e s) id sess
                  (flush_one-session e s id ∙ ground (arith, same, found)),
            ))
      | inr other ↦
          (let (zs, first) = flush_all-grows (e ∷ []) s in
            let found' : lookup id (sessions (flush_one e s)) ≡ some sess =
              flush_one-session e s id ∙ ground (arith, other, found) in
            let (xs, ys, rest, left) =
              flush_all-reaches es (flush_one e s) id addr sess at.1 (ground (arith, here, other))
                found' in
            (
              zs ++ xs,
              ys,
              rest
                  ∙ ap (λ ds. ds ++ (xs ++ (as_datagrams addr sess.outbox ++ ys))) first
                  ∙ append_assoc s.written zs (xs ++ (as_datagrams addr sess.outbox ++ ys))
                  ∙ ap (λ ds. s.written ++ ds)
                      (sym (append_assoc zs xs (as_datagrams addr sess.outbox ++ ys))),
              left,
            ))
    ]

among :
    (b : Book UdpClient) (xs : GoMap UdpClient) (id : String) (e : UdpClient)
    → All (InPlace (λ (e : UdpClient). e.session_id) (λ e. e.addr) b) xs
    → lookup id b.by_id ≡ some e
    → All (λ x. x.session_id ≡ id → x.addr ≡ e.addr) (values xs)
among b [] id e h found = tt
among b ((k, x) ∷ xs) id e h found = (
  λ own. ground (arith, h.0, found, ap (λ j. lookup j b.by_id) (sym h.0.0 ∙ own)),
  among b xs id e h.1 found,
)

any-lookup :
    (xs : GoMap UdpClient) (id : String) (e : UdpClient)
    → lookup id xs ≡ some e
    → e.session_id ≡ id
    → any (λ x. str_eq x.session_id id) (values xs) ≡ true
unfolding lookup any
any-lookup [] id e found own = absurd (ground (arith, found))
any-lookup ((k, x) ∷ xs) id e found own = elim (Bool-cases (str_eq k id)) [
  | inl same ↦
      (let here : x ≡ e = ground (arith, found, same) in
        let own_x : str_eq x.session_id id ≡ true =
          (str_eq_iff x.session_id id).1 (ap (λ (y : UdpClient). y.session_id) here ∙ own) in
        ground (arith, own_x))
  | inr other ↦ ground (arith, any-lookup xs id e (ground (arith, found, other)) own)
]

-- Where the maps of the server agree, flushOutboxes writes all that waits for the session of a
-- client, without a gap and in the order in which it was sent, to the address of that client, after
-- what was written before; and it leaves the session with an empty outbox and else as it was.
pub flush_outboxes-reaches :
    (s : UdpServer) (id : String) (e : UdpClient) (sess : Session)
    → IsPaired (λ (e : UdpClient). e.session_id) (λ e. e.addr) s.book
    → lookup id s.book.by_id ≡ some e
    → lookup id s.server.outer.manager.sessions ≡ some sess
    → (xs : List (String × Bytes)) × (ys : List (String × Bytes)) × ((flush_outboxes s).written
        ≡ s.written ++ (xs ++ (as_datagrams e.addr sess.outbox ++ ys)))
      × (lookup id (flush_outboxes s).server.outer.manager.sessions ≡ some (drained sess))
unfolding flush_outboxes
flush_outboxes-reaches s id e sess paired there found =
    flush_all-reaches (values s.book.by_id) s id e.addr sess
      (among s.book s.book.by_id id e paired.forth there)
      (any-lookup s.book.by_id id e there (All-lookup _ id e s.book.by_id paired.forth there).0)
      found
