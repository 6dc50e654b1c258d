-- ===== src/Transport.antt =====
-- internal/transport/transport.go: a connection and its lines, with the callbacks of cmd/server/main.go;
-- and the life of the server as a sequence of events. The sockets and their loops are I/O.
pub mod Away
pub mod Owners
pub mod Parts
pub mod Handlers
pub mod Steps
pub mod Life
pub mod Departure
pub mod Udp
pub mod Tests
use dwcs.Base.{ℕ, String, Option, none, some, List, [], ◌∷◌, ok, err, Slice, Bytes}
use dwcs.GoMap.{adjust}
use dwcs.Session.{Session, add, remove, send_to, receive, error_text}
use dwcs.Protocol.{Codec, error, msg_error, encoded}
use dwcs.Task.{register, evict_expired}
use dwcs.Projector.{tick}
use dwcs.Backend.{Outer, Server, on_connect, on_disconnect}
use dwcs.Dispatcher.{handle}

-- The start of handleConn, for the id that newSessionID returned.
unfoldable pub connect : String → ℕ → Server → Server
unfolding on_connect
connect id now v =
    on_connect id (record v { outer = record v.outer { manager = (add id now v.outer.manager).1 } })

-- The deferred calls of handleConn.
unfoldable pub disconnect : String → (String → ℕ) → Server → Server
unfolding on_disconnect
disconnect id stamp v =
    let v₁ = on_disconnect id stamp v in
    record v₁ { outer = record v₁.outer { manager = (remove v₁.outer.manager id).1 } }

module _ (c : Codec) where
  unfoldable pub complain : String → String → String → Server → Server
  complain id code message v = record v {
    outer = record v.outer {
      manager =
          send_to id
            (encoded c msg_error "" (some (error (record { code = code; message = message }))))
            v.outer.manager;
    };
  }

  -- One line of a client.
  unfoldable pub read_line : String → Bytes → (ℕ → ℕ) → Server → Server
  unfolding complain
  read_line id line clock v = elim (c.unmarshal_envelope line) [
    | err e ↦ complain id "bad_json" e v
    | ok env ↦
        let (res, v') = handle c v id env clock in
        elim res [ ok u ↦ v' | err e ↦ complain id "handler_error" (error_text e) v' ]
  ]

  -- The loop of handleConn, on the lines that come before the connection ends, each with the times
  -- that its handler reads.
  unfoldable pub read_lines : String → List (Bytes × (ℕ → ℕ)) → Server → Server
  unfolding read_line
  read_lines id [] v = v
  read_lines id ((line, clock) ∷ lines) v = read_lines id lines (read_line id line clock v)

  -- handleConn, with nothing else happening meanwhile.
  unfoldable pub handle_conn : String → ℕ → List (Bytes × (ℕ → ℕ)) → (String → ℕ) → Server → Server
  unfolding connect read_lines disconnect
  handle_conn id now lines stamp v = disconnect id stamp (read_lines id lines (connect id now v))

-- writeLoop takes the oldest message out of the outbox.
unfoldable pub write_one : String → Server → Server
write_one id v = record v {
  outer = record v.outer {
    manager = record { sessions = adjust id (λ s. (receive s).1) v.outer.manager.sessions };
  };
}

-- What happens to the server, one thing after the other. `registers` is for the program that the
-- operator puts around it: no code of the repository registers a task.
pub data Event : Type 0 where
  connects : String → ℕ → Event
  reads : String → Bytes → (ℕ → ℕ) → Event
  writes : String → Event
  disconnects : String → (String → ℕ) → Event
  registers : String → Slice String → Bytes → ℕ → ℕ → Event
  evicts : ℕ → (String → ℕ) → Event
  projects : Event

module _ (c : Codec) where
  unfoldable pub step : Server → Event → Server
  step v (connects id now) = connect id now v
  step v (reads id line clock) = read_line c id line clock v
  step v (writes id) = write_one id v
  step v (disconnects id stamp) = disconnect id stamp v
  step v (registers id tags hint now stamp) =
      let (res, r, o) = register v.registry v.outer id tags hint now stamp in
      record v { registry = r; outer = o }
  step v (evicts now stamp) =
      let (r, o) = evict_expired v.registry v.outer now stamp in
      record v { registry = r; outer = o }
  step v projects =
      let (m, mr, p) = tick c v.world v.outer.manager v.outer.metrics v.projector in
      record v { outer = record { manager = m; metrics = mr }; projector = p }

  unfoldable pub run : Server → List Event → Server
  run v [] = v
  run v (e ∷ es) = run (step v e) es
