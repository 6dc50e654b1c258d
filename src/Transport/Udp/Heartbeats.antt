-- ===== src/Transport/Udp/Heartbeats.antt =====
-- What the server does with a client's answer to its heartbeat.
use dwcs.Base.{
  ℕ, ◌<◌, String, false, some, [], ◌∷◌, ◌++◌, ◌≡◌, refl, sym, ap, ◌∙◌, subst, arith, Result, ok,
  Bytes, str_eq, str_eq_refl, length,
}
use Prim.Native.String.{◌++◌ as join_text}
use dwcs.GoMap.{lookup}
use dwcs.GoMap.Laws.{lookup-adjust}
use dwcs.Session.{Session, send, send_to}
use dwcs.Session
use dwcs.Protocol.{Codec, Envelope, error, msg_error, msg_ping, msg_pong, encoded}
use dwcs.Backend.{Server}
use dwcs.Dispatcher.{Handled, handle, reply, dispatch, send_error}
use dwcs.Transport.Udp.{UdpServer, deliver, handle_datagram, find_client, through_client}

module _ (c : Codec) where
  -- What the dispatcher answers to a message of a type that it does not know.
  abbrev pub complaint : Envelope → Bytes
  complaint env = encoded c msg_error env.request_id (
      some (
        error (record {
          code = "unknown_type";
          message = join_text "unknown message type: " env.msg_type;
        })))

  dispatch-pong :
      (v : Server) (id : String) (env : Envelope) (clock : ℕ → ℕ)
      → env.msg_type ≡ msg_pong
      → dispatch c v id env clock ≡ reply v id (complaint env)
  unfolding dispatch send_error str_eq
  dispatch-pong v id env clock pong =
      subst
        (λ (type : String).
          dispatch c v id (record env { msg_type = type }) clock
          ≡ reply v id (complaint (record env { msg_type = type })))
        (sym pong) refl

  handle-pong :
      (v : Server) (id : String) (env : Envelope) (clock : ℕ → ℕ) (sess : Session)
      → env.msg_type ≡ msg_pong
      → lookup id v.outer.manager.sessions ≡ some sess
      → handle c v id env clock ≡ (
        (send (complaint env) sess).0,
        record v {
          outer = record v.outer { manager = send_to id (complaint env) v.outer.manager };
        },
      )
  handle-pong v id env clock sess pong found =
      dispatched ∙ dispatch-pong v id env clock pong ∙ replied
    where
      dispatched : handle c v id env clock ≡ dispatch c v id env clock
      dispatched = unfold handle Session.get in rw (found, handle, Session.get) refl

      replied : reply v id (complaint env) ≡ (
        (send (complaint env) sess).0,
        record v {
          outer = record v.outer { manager = send_to id (complaint env) v.outer.manager };
        },
      )
      replied = unfold reply in rw (found, reply) refl

  send-open :
      (msg : Bytes) (sess : Session)
      → sess.closed ≡ false
      → length sess.outbox < 512
      → send msg sess ≡ (ok tt, record sess { outbox = sess.outbox ++ msg ∷ [] })
  unfolding send
  send-open msg sess opened room = ground (arith, opened, room)

  deliver-pong :
      (v : Server) (id : String) (env : Envelope) (clock : ℕ → ℕ) (sess : Session)
      → env.msg_type ≡ msg_pong
      → lookup id v.outer.manager.sessions ≡ some sess
      → sess.closed ≡ false
      → length sess.outbox < 512
      → deliver c id env clock v ≡ record v {
        outer = record v.outer { manager = send_to id (complaint env) v.outer.manager };
      }
  deliver-pong v id env clock sess pong found opened room =
      let h = handle-pong v id env clock sess pong found in
      let sent : (handle c v id env clock).0 ≡ ok tt =
        ap (λ (x : Handled). x.0) h
        ∙ ap (λ (x : Result Session.SessionError (Unit {0}) × Session). x.0)
            (send-open (complaint env) sess opened room) in
      let not_ping : str_eq env.msg_type msg_ping ≡ false = unfold str_eq in rw (pong) refl in
      unfold deliver in rw (not_ping, sent, deliver) (ap (λ (x : Handled). x.1) h)

  -- A datagram that reads as a pong, which is how a client answers a heartbeat, from the address
  -- of a client whose session is there, open and with room, puts into the outbox of the session
  -- the error unknown_type.
  pub handle_datagram-pong :
      (addr drawn id : String) (datagram : Bytes) (made added now : ℕ) (clock : ℕ → ℕ)
      (s : UdpServer) (env : Envelope) (sess : Session)
      → c.unmarshal_envelope datagram ≡ ok env
      → env.msg_type ≡ msg_pong
      → lookup addr s.book.by_addr ≡ some id
      → lookup id s.server.outer.manager.sessions ≡ some sess
      → sess.closed ≡ false
      → length sess.outbox < 512
      → lookup id
          (handle_datagram c addr drawn datagram made added now clock
            s).server.outer.manager.sessions
        ≡ some (record sess { outbox = sess.outbox ++ complaint env ∷ [] })
  handle_datagram-pong addr drawn id datagram made added now clock s env sess read pong there found
        opened room =
      ap (λ (v : Server). lookup id v.outer.manager.sessions) handled ∙ told
    where
      known : find_client addr drawn made added s ≡ (id, s)
      known = unfold find_client in rw (there, find_client) refl

      delivered :
          (handle_datagram c addr drawn datagram made added now clock s).server
          ≡ (let (i, s₁) = find_client addr drawn made added s in deliver c i env clock s₁.server)
      delivered = unfold handle_datagram through_client in rw (read, handle_datagram) refl

      handled :
          (handle_datagram c addr drawn datagram made added now clock s).server ≡ record s.server {
            outer = record s.server.outer {
              manager = send_to id (complaint env) s.server.outer.manager;
            };
          }
      handled =
          delivered
          ∙ ap (λ (x : String × UdpServer). deliver c x.0 env clock x.1.server) known
          ∙ deliver-pong s.server id env clock sess pong found opened room

      told :
          lookup id (send_to id (complaint env) s.server.outer.manager).sessions
          ≡ some (record sess { outbox = sess.outbox ++ complaint env ∷ [] })
      told =
          unfold send_to in
          ground (
            arith,
            lookup-adjust id id (λ s. (send (complaint env) s).1) s.server.outer.manager.sessions,
            found,
            str_eq_refl id,
            send-open (complaint env) sess opened room,
          )
