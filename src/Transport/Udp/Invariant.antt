-- ===== src/Transport/Udp/Invariant.antt =====
-- Clients, sessions and tasks over any history of the UDP server.
use dwcs.Base.{
  ℕ, suc, ◌+◌, String, Bool, Option, none, List, [], ◌∷◌, ◌≡◌, refl, sym, subst, inl, inr, arith,
  Result, ok, err, Bytes, Duration, Option-cases, Bool-cases, str_eq, str_eq_iff, length, All-map,
}
use dwcs.GoMap.{lookup, values}
use dwcs.GoMap.Laws.{lookup-insert}
use dwcs.AddrBook.{empty, enter}
use dwcs.GoMap.Entries.{All-insert, All-lookup}
use dwcs.AddrBook.Laws.{empty-IsPaired, enter-IsPaired}
use dwcs.Protocol.{Codec, Envelope}
use dwcs.Merge.{MergeFunc}
use dwcs.Backend.{new_server}
use dwcs.Transport.{connect, disconnect}
use dwcs.Transport.Owners.{reply-IsAttended, new_server-IsAttended}
use dwcs.Transport.Steps.{
  connected-IsAttended, registers-IsAttended, evicts-IsAttended, projects-IsAttended,
}
use dwcs.Transport.Udp.{
  UdpClient, UdpServer, new_udp_client, new_udp_server, touch, find_client, through_client,
  handle_datagram, answer_error, flush_outboxes,
}
use dwcs.Transport.Udp.Served.{
  IsServed, IsServedAt, serving-IsServed, IsServed-suc, flush_all-IsServed, fewer-IsAttended,
}
use dwcs.Transport.Udp.Events.{
  UdpEvent, receives, flushes, heartbeats, expires, task_registers, leases_end, ticks, step, run,
}
use dwcs.Transport.Udp.Handling.{
  evict_expired-IsServed, touched-IsServed, heartbeats-IsServed, deliver-IsAttended,
}

module _ (session_id : ℕ → String) (c : Codec)
    (distinct : (k j : ℕ) → session_id k ≡ session_id j → k ≡ j) where
  find_client-IsServed :
      (addr : String) (made added n : ℕ) (s : UdpServer)
      → IsServedAt session_id n s
      → IsServedAt session_id (suc n) (find_client addr (session_id n) made added s).1
  unfolding find_client new_udp_client enter
  find_client-IsServed addr made added n s h = elim (Option-cases (lookup addr s.book.by_addr)) [
    | inr (id, there) ↦ rw (there, find_client) (IsServed-suc session_id n s.book s.server h)
    | inl missing ↦
        (let id = session_id n in
          let e = new_udp_client id addr made in
          let unused : lookup id s.book.by_id ≡ none =
            elim (Option-cases (lookup id s.book.by_id)) [
              | inl none_there ↦ none_there
              | inr (x, found) ↦
                  (let (k, same, below) = All-lookup _ id x s.book.by_id h.numbered found in
                    absurd (omega (arith, distinct n k same, below)))
            ] in
          let added_to : IsServed session_id (suc n) (enter id addr e s.book)
              (connect id added s.server) =
            record {
              paired =
                  enter-IsPaired (λ (e : UdpClient). e.session_id) (λ e. e.addr) s.book e unused
                    missing h.paired;
              numbered =
                  All-insert _ id e s.book.by_id (n, refl, omega arith)
                    (All-map _ _ s.book.by_id (λ e h. (h.0, h.1, omega (arith, h.2))) h.numbered);
              attended =
                  connected-IsAttended id added s.server
                    (λ j q. elim (Bool-cases (str_eq id j)) [
                      | inl e ↦ inr (sym ((str_eq_iff id j).0 e))
                      | inr w ↦
                          inl
                            (λ gone. q (ground (arith, w, gone, lookup-insert id j e s.book.by_id)))
                    ])
                    h.attended;
            } in
          rw (missing, find_client) added_to)
  ]

  handle_datagram-IsServed :
      (addr : String) (datagram : Bytes) (made added now n : ℕ) (clock : ℕ → ℕ) (s : UdpServer)
      → IsServedAt session_id n s
      → IsServedAt session_id
          (suc n)
          (handle_datagram c addr (session_id n) datagram made added now clock s)
  handle_datagram-IsServed addr datagram made added now n clock s h =
      split (c.unmarshal_envelope datagram) refl
    where
      touched :
          let (id, s₁) = find_client addr (session_id n) made added s in
          IsServedAt session_id (suc n) (through_client id (touch now) s₁)
      touched =
          let (id, s₁) = find_client addr (session_id n) made added s in
          touched-IsServed session_id (suc n) id now s₁ (find_client-IsServed addr made added n s h)

      split :
          (x : Result String Envelope)
          → c.unmarshal_envelope datagram ≡ x
          → IsServedAt session_id
              (suc n)
              (handle_datagram c addr (session_id n) datagram made added now clock s)
      split (err e) q =
          unfold handle_datagram answer_error in
          rw (q, handle_datagram)
            (serving-IsServed session_id (suc n) _ _ _ (λ a. reply-IsAttended _ _ _ a) touched)
      split (ok env) q =
          unfold handle_datagram in
          rw (q, handle_datagram)
            (serving-IsServed session_id (suc n) _ _ _
              (λ a. deliver-IsAttended session_id c _ _ env clock _ a) touched)

  step-IsServed :
      (n : ℕ) (s : UdpServer) (e : UdpEvent)
      → IsServedAt session_id n s
      → IsServedAt session_id (suc n) (step session_id c n s e)
  unfolding step flush_outboxes dwcs.Transport.step
  step-IsServed n s (receives addr datagram made added now clock) h =
      handle_datagram-IsServed addr datagram made added now n clock s h
  step-IsServed n s flushes h =
      IsServed-suc session_id n _ _ (flush_all-IsServed session_id n (values s.book.by_id) s h)
  step-IsServed n s heartbeats h =
      IsServed-suc session_id n _ _ (heartbeats-IsServed session_id c n s h)
  step-IsServed n s (expires now stamp) h =
      IsServed-suc session_id n _ _ (evict_expired-IsServed session_id now n stamp s h)
  step-IsServed n s (task_registers id tags hint now stamp) h = IsServed-suc session_id n _ _ (
      serving-IsServed session_id n _ _ _
        (λ a. registers-IsAttended id tags hint now stamp s.server a) h)
  step-IsServed n s (leases_end now stamp) h =
      IsServed-suc session_id n _ _
        (serving-IsServed session_id n _ _ _ (λ a. evicts-IsAttended now stamp s.server a) h)
  step-IsServed n s ticks h =
      IsServed-suc session_id n _ _
        (serving-IsServed session_id n _ _ _ (λ a. projects-IsAttended c s.server a) h)

  run-IsServed :
      (es : List UdpEvent) (n : ℕ) (s : UdpServer)
      → IsServedAt session_id n s
      → IsServedAt session_id (n + length es) (run session_id c n s es)
  unfolding run
  run-IsServed [] n s h =
      (let e : n ≡ n + 0 = omega arith in subst (λ (k : ℕ). IsServedAt session_id k s) e h)
  run-IsServed (e ∷ es) n s h =
      (let sum : suc n + length es ≡ n + suc (length es) = omega arith in
        subst
          (λ (k : ℕ).
            IsServedAt session_id k (run session_id c (suc n) (step session_id c n s e) es))
          sum (run-IsServed es (suc n) (step session_id c n s e) (step-IsServed n s e h)))

  -- From the server as main sets it up, with the UDP server around it, and whatever happens, in
  -- whatever order: datagrams of any content from any address, flushes, heartbeats, evictions of
  -- clients, registrations of tasks, ends of leases and ticks. Each client stands under its session
  -- and its address leads to it, each address that leads anywhere leads to the client with that
  -- address, the session of each client is connected, and the owner of every owned task is a
  -- session that is connected. It is assumed that the ids that newSessionID draws differ.
  pub run-new_udp_server-IsServed :
      (fn : Option MergeFunc) (metrics_on : Bool) (rate : Duration) (now : ℕ) (es : List UdpEvent)
      → IsServedAt session_id
          (length es)
          (run session_id c 0 (new_udp_server (new_server c fn metrics_on rate now)) es)
  unfolding new_udp_server
  run-new_udp_server-IsServed fn metrics_on rate now es =
      let v = new_server c fn metrics_on rate now in
      let s : UdpServer = record { server = v; book = empty; written = [] } in
      let start : IsServedAt session_id 0 s = record {
        paired = empty-IsPaired (λ (e : UdpClient). e.session_id) (λ e. e.addr);
        numbered = tt;
        attended =
            fewer-IsAttended _ _ _ (λ j q. q (unfold lookup in refl))
              (new_server-IsAttended c fn metrics_on rate now);
      } in
      let sum : 0 + length es ≡ length es = omega arith in
      subst (λ (k : ℕ). IsServedAt session_id k (run session_id c 0 s es)) sum
        (run-IsServed es 0 s start)
