-- ===== src/Transport/Udp/Handling.antt =====
-- Evictions, heartbeats and messages keep what is always so of the UDP server.
use dwcs.Base.{
  ℕ, String, true, false, none, some, ◌≡◌, refl, ap, ◌∙◌, inl, inr, arith, Result, ok, err, Bytes,
  Option-cases, Bool-cases, str_eq, if◌then◌else◌, keep, any, All-keep,
}
use dwcs.GoMap.{lookup, values}
use dwcs.GoMap.Laws.{map_option, lookup-map_values}
use dwcs.GoMap.Entries.{All-map_values}
use dwcs.AddrBook.Laws.{
  drop_all-IsPaired, values-Matched, map_values-IsPaired, All-drop_all, lookup-drop_all,
}
use dwcs.Session.{Session}
use dwcs.Session
use dwcs.Protocol.{Codec, Envelope, encode, msg_ping, msg_pong}
use dwcs.Backend.{Server}
use dwcs.Dispatcher.{handle}
use dwcs.Transport.Owners.{IsAttended, reply-IsAttended}
use dwcs.Transport.Handlers.{handle-IsAttended}
use dwcs.Transport.Udp.{
  UdpClient, UdpServer, touch, through_client, deliver, answer_error, evict_expired, is_expired,
  send_heartbeats,
}
use dwcs.Transport.Udp.Served.{
  IsClient, IsServedAt, write_each-IsServed, disconnect_all-IsAttended, fewer-IsAttended,
}

module _ (session_id : ℕ → String) where
  pub evict_expired-IsServed :
      (now : String → ℕ) (n : ℕ) (stamp : String → String → ℕ) (s : UdpServer)
      → IsServedAt session_id n s
      → IsServedAt session_id n (evict_expired now stamp s)
  unfolding evict_expired
  evict_expired-IsServed now n stamp s h =
      let gone = keep (λ e. is_expired (now e.session_id) e) (values s.book.by_id) in
      record {
        paired =
            drop_all-IsPaired (λ (e : UdpClient). e.session_id) (λ e. e.addr) gone s.book
              (All-keep _ (λ e. is_expired (now e.session_id) e) (values s.book.by_id)
                (values-Matched (λ (e : UdpClient). e.session_id) (λ e. e.addr) s.book h.paired))
              h.paired;
        numbered =
            All-drop_all _ (λ (e : UdpClient). e.session_id) (λ e. e.addr) gone s.book h.numbered;
        attended =
            fewer-IsAttended _ _ _
              (λ j q.
                let left =
                  lookup-drop_all (λ (e : UdpClient). e.session_id) (λ e. e.addr) gone s.book j in
                elim (Bool-cases (any (λ e. str_eq e.session_id j) gone)) [
                  | inl e ↦ absurd (q (ground (arith, left, e)))
                  | inr e ↦ ((λ missing. q (ground (arith, left, e, missing))), e)
                ])
              (disconnect_all-IsAttended gone stamp (IsClient s.book) s.server h.attended);
      }

  pub touched-IsServed :
      (n : ℕ) (id : String) (now : ℕ) (s : UdpServer)
      → IsServedAt session_id n s
      → IsServedAt session_id n (through_client id (touch now) s)
  unfolding through_client touch
  touched-IsServed n id now s h =
      let f : UdpClient → UdpClient =
        λ e. if str_eq e.session_id id then record e { last_seen = now } else e in
      record {
        paired =
            map_values-IsPaired (λ (e : UdpClient). e.session_id) (λ e. e.addr) f s.book
              (λ e. (ground arith, ground arith)) h.paired;
        numbered = All-map_values _ _ f s.book.by_id (λ k e h. h) h.numbered;
        attended =
            fewer-IsAttended _ _ _
              (λ j q. λ missing. q (lookup-map_values j f s.book.by_id ∙ ap (map_option f) missing))
              h.attended;
      }

  module _ (c : Codec) where
    pub heartbeats-IsServed :
        (n : ℕ) (s : UdpServer)
        → IsServedAt session_id n s
        → IsServedAt session_id n (send_heartbeats c s)
    heartbeats-IsServed n s h = split (encode c msg_ping "" none) refl
      where
        split :
            (x : Result String Bytes)
            → encode c msg_ping "" none ≡ x
            → IsServedAt session_id n (send_heartbeats c s)
        split (err e) q = unfold send_heartbeats in rw (q, send_heartbeats) h
        split (ok ping) q =
            unfold send_heartbeats in
            rw (q, send_heartbeats)
              (write_each-IsServed session_id n ping (values s.book.by_id) s h)

    pub deliver-IsAttended :
        (P : String → Type 0) (id : String) (env : Envelope) (clock : ℕ → ℕ) (v : Server)
        → IsAttended P v
        → IsAttended P (deliver c id env clock v)
    deliver-IsAttended P id env clock v a = elim (Bool-cases (str_eq env.msg_type msg_ping)) [
      | inl e ↦ elim (Option-cases (lookup id v.outer.manager.sessions)) [
        | inl missing ↦ alone e missing
        | inr (sess, found) ↦ answer e sess found (encode c msg_pong env.request_id none) refl
      ]
      | inr e ↦ handled e (handle c v id env clock).0 refl
    ]
      where
        alone :
            str_eq env.msg_type msg_ping ≡ true
            → lookup id v.outer.manager.sessions ≡ none
            → IsAttended P (deliver c id env clock v)
        alone e missing = unfold deliver Session.get in rw (e, missing, deliver, Session.get) a

        answer :
            str_eq env.msg_type msg_ping ≡ true
            → (sess : Session) → lookup id v.outer.manager.sessions ≡ some sess
            → (x : Result String Bytes) → encode c msg_pong env.request_id none ≡ x
            → IsAttended P (deliver c id env clock v)
        answer e sess found (err w) q =
            unfold deliver Session.get in rw (e, found, q, deliver, Session.get) a
        answer e sess found (ok pong) q =
            unfold deliver Session.get in
            rw (e, found, q, deliver, Session.get) (reply-IsAttended v id pong a)

        handled :
            str_eq env.msg_type msg_ping ≡ false
            → (x : Result Session.SessionError (Unit {0})) → (handle c v id env clock).0 ≡ x
            → IsAttended P (deliver c id env clock v)
        handled e (ok u) q =
            unfold deliver in rw (e, q, deliver) (handle-IsAttended c v id env clock a)
        handled e (err w) q =
            unfold deliver answer_error in
            rw (e, q, deliver) (reply-IsAttended _ id _ (handle-IsAttended c v id env clock a))
