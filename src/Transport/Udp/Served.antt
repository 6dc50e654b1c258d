-- ===== src/Transport/Udp/Served.antt =====
-- What is always so of the UDP server, and that what it does to one part of its state keeps it.
use dwcs.Base.{
  ℕ, suc, ◌<◌, String, false, none, List, [], ◌∷◌, ◌≡◌, ◌≢◌, refl, sym, inl, inr, arith, Bytes,
  Option-cases, str_eq, str_eq_iff, length, any, All, All-map,
}
use dwcs.GoMap.{lookup}
use dwcs.AddrBook.{Book}
use dwcs.AddrBook.Laws.{IsPaired}
use dwcs.Drain.{drain}
use dwcs.Session.{Session}
use dwcs.Session
use dwcs.Backend.{Server}
use dwcs.Transport.{disconnect}
use dwcs.Transport.Owners.{IsAttended, adjust-ne, moved-IsAttended}
use dwcs.Transport.Steps.{disconnect-IsAttended}
use dwcs.Transport.Udp.{
  UdpClient, UdpServer, write_to, write_all, leave, flush_one, flush_all, disconnect_all,
  write_each,
}

-- The sessions of the clients in a book.
abbrev pub IsClient : Book UdpClient → String → Type 0
IsClient b id = lookup id b.by_id ≢ none

module _ (session_id : ℕ → String) where
  -- Clients and addresses agree, every id was among the first `n` that were drawn, the session of
  -- each client is connected, and so is the owner of each owned task.
  pub record IsServed (n : ℕ) (b : Book UdpClient) (v : Server) : Type 0 where
    pub paired : IsPaired (λ (e : UdpClient). e.session_id) (λ e. e.addr) b
    pub numbered : All (λ e. (k : ℕ) × (e.0 ≡ session_id k) × (k < n)) b.by_id
    pub attended : IsAttended (IsClient b) v

  abbrev pub IsServedAt : ℕ → UdpServer → Type 0
  IsServedAt n s = IsServed n s.book s.server

  -- A step of the server alone.
  pub serving-IsServed :
      (n : ℕ) (b : Book UdpClient) (v v' : Server)
      → (IsAttended (IsClient b) v → IsAttended (IsClient b) v')
      → IsServed n b v
      → IsServed n b v'
  serving-IsServed n b v v' keeps s = record {
    paired = s.paired;
    numbered = s.numbered;
    attended = keeps s.attended;
  }

  pub IsServed-suc :
      (n : ℕ) (b : Book UdpClient) (v : Server) → IsServed n b v → IsServed (suc n) b v
  IsServed-suc n b v s = record {
    paired = s.paired;
    numbered = All-map _ _ b.by_id (λ e h. (h.0, h.1, omega (arith, h.2))) s.numbered;
    attended = s.attended;
  }

  pub write_all-IsServed :
      (n : ℕ) (addr : String) (msgs : List Bytes) (s : UdpServer)
      → IsServedAt n s
      → IsServedAt n (write_all addr msgs s)
  unfolding write_all write_to
  write_all-IsServed n addr [] s h = h
  write_all-IsServed n addr (msg ∷ msgs) s h =
      write_all-IsServed n addr msgs (write_to addr msg s) h

  pub write_each-IsServed :
      (n : ℕ) (msg : Bytes) (es : List UdpClient) (s : UdpServer)
      → IsServedAt n s
      → IsServedAt n (write_each msg es s)
  unfolding write_each write_to
  write_each-IsServed n msg [] s h = h
  write_each-IsServed n msg (e ∷ es) s h = write_each-IsServed n msg es (write_to e.addr msg s) h

  flush_one-IsServed :
      (n : ℕ) (e : UdpClient) (s : UdpServer) → IsServedAt n s → IsServedAt n (flush_one e s)
  unfolding flush_one Session.get
  flush_one-IsServed n e s h =
      elim (Option-cases (lookup e.session_id s.server.outer.manager.sessions)) [
        | inl missing ↦ rw (missing, flush_one, Session.get) h
        | inr (sess, found) ↦
            (let (left, taken) = drain (suc (length sess.outbox)) sess.outbox [] in
              rw (found, flush_one, Session.get)
                (write_all-IsServed n e.addr taken
                  (record s { server = leave e.session_id left s.server })
                  (serving-IsServed n s.book s.server (leave e.session_id left s.server)
                    (λ a.
                      unfold leave in
                      moved-IsAttended s.server _ refl refl
                        (λ j here. adjust-ne e.session_id j _ s.server.outer.manager.sessions here)
                        a)
                    h)))
      ]

  pub flush_all-IsServed :
      (n : ℕ) (es : List UdpClient) (s : UdpServer) → IsServedAt n s → IsServedAt n (flush_all es s)
  unfolding flush_all
  flush_all-IsServed n [] s h = h
  flush_all-IsServed n (e ∷ es) s h =
      flush_all-IsServed n es (flush_one e s) (flush_one-IsServed n e s h)

pub fewer-IsAttended :
    (P Q : String → Type 0) (v : Server)
    → ((j : String) → Q j → P j)
    → IsAttended P v
    → IsAttended Q v
fewer-IsAttended P Q v fewer a = record {
  owners = a.owners;
  calm = a.calm;
  apart = a.apart;
  still = a.still;
  present = λ j q. a.present j (fewer j q);
}

-- Of the sessions, those stay that are of none of these clients.
pub disconnect_all-IsAttended :
    (es : List UdpClient) (stamp : String → String → ℕ) (P : String → Type 0) (v : Server)
    → IsAttended P v
    → IsAttended
        (λ j. P j × (any (λ e. str_eq e.session_id j) es ≡ false))
        (disconnect_all es stamp v)
unfolding disconnect_all any
disconnect_all-IsAttended [] stamp P v a = fewer-IsAttended P _ v (λ j q. q.0) a
disconnect_all-IsAttended (e ∷ es) stamp P v a =
    let id = e.session_id in
    let next : IsAttended (λ j. P j × (j ≢ id)) (disconnect id (stamp id) v) =
      disconnect-IsAttended id (stamp id) v (λ j q. q) a in
    fewer-IsAttended _ _ _
      (λ j q. ((q.0, λ same. ground (arith, q.1, str_eq_iff id j, sym same)), ground (arith, q.1)))
      (disconnect_all-IsAttended es stamp (λ j. P j × (j ≢ id)) (disconnect id (stamp id) v) next)
