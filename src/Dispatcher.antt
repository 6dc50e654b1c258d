-- ===== src/Dispatcher.antt =====
-- internal/dispatcher/dispatcher.go: the handling of one message of a client. `clock` gives the
-- readings of time.Now() that the handling makes, each at an index of its own.
pub mod Tests
pub mod Frame
pub mod Submit
use dwcs.Base.{
  ℕ, zero, suc, ◌+◌, ◌-◌, ◌*◌, ◌/◌, ◌%◌, ◌^◌, ◌≤◌, ◌<◌, String, Bool, true, false, not, ◌&&◌, ◌||◌,
  Option, none, some, List, [], ◌∷◌, ◌++◌, map, append_assoc, append-nil, map-append, ◌≡◌, ◌≢◌, ◌↔◌,
  refl, sym, ap, ◌∙◌, subst, fun_ext, ◌⊎◌, inl, inr, arith, Result, ok, err, Slice, elems, Bytes,
  append_copy, next_uint64, Outcome, returned, panicked, Handler, recovered, Duration, pos, negsuc,
  second, Option-cases, Bool-cases, str_eq, str_eq_iff, str_eq_refl, str_eq_of_ne, if◌then◌else◌,
  ltb, leb, ◌==◌, ltb→lt, lt→ltb, leb→le, ==_iff, length, length-append, length-map, length-keep-le,
  keep, any, all, All, All-keep, All-map,
}
use dwcs.GoMap.{lookup, insert, adjust}
use dwcs.Session.{
  Session, SessionError, session_not_found, Manager, send, subscribe, unsubscribe, send_to,
}
use dwcs.Session
use dwcs.Metrics.{Recorder, task_claimed, task_released, task_rejected, task_completed}
use Prim.Native.String.{◌++◌ as join_text}
use dwcs.Protocol.{
  Codec, Envelope, Payload, submit_result, task_available, task_acquired_ok, task_acquired_fail,
  result_accepted, result_rejected, error, msg_acquire_task, msg_release_task, msg_submit_result,
  msg_subscribe, msg_unsubscribe, msg_ping, msg_task_available, msg_task_acquired_ok,
  msg_task_acquired_fail, msg_result_accepted, msg_result_rejected, msg_pong, msg_error, encoded,
  decode,
}
use dwcs.World
use dwcs.Task.{
  Task, TaskError, AcquireResult, acquire, release, list_available, default_lease_duration,
}
use dwcs.Task
use dwcs.Merge.{Submission, SubmitOutcome, submit}
use dwcs.Backend.{Outer, Server}

-- What a handler returns, and the server afterwards.
abbrev pub Handled : Type 0
Handled = Result SessionError (Unit {0}) × Server

with_metrics : (Recorder → Recorder) → Server → Server
with_metrics f v = record v { outer = record v.outer { metrics = f v.outer.metrics } }

-- sess.Send on the session that Handle fetched. It is still in the map: no callback removes one.
unfoldable pub reply : Server → String → Bytes → Handled
reply v id msg = elim (lookup id v.outer.manager.sessions) [
  | none ↦ (ok tt, v)
  | some s ↦ (
    (send msg s).0,
    record v { outer = record v.outer { manager = send_to id msg v.outer.manager } },
  )
]

unfoldable pub through_session : String → (Session → Session) → Server → Server
through_session id f v = record v {
  outer = record v.outer { manager = record { sessions = adjust id f v.outer.manager.sessions } };
}

module _ (c : Codec) where
  unfoldable pub send_error : Server → String → String → String → String → Handled
  unfolding reply
  send_error v id request_id code message =
      reply v id
        (encoded c msg_error request_id (some (error (record { code = code; message = message }))))

  unfoldable pub reject_result : Server → String → String → String → String → Handled
  unfolding reply
  reject_result v id request_id task_id reason = reply v id (
      encoded c msg_result_rejected request_id
        (some (result_rejected (record { task_id = task_id; reason = reason }))))

  unfoldable pub handle_acquire : Server → String → Envelope → (ℕ → ℕ) → Handled
  unfolding send_error with_metrics
  handle_acquire v id env clock = elim (decode c.acquire_task env) [
    | err e ↦ send_error v id env.request_id "bad_payload" e
    | ok p ↦
        let (res, r, o) =
          acquire v.registry v.outer p.task_id id (pos 0) (clock 0) (clock 1) (clock 2) in
        let v₁ = record v { registry = r; outer = o } in
        elim res [
          | err e ↦ reply v₁ id (
              encoded c msg_task_acquired_fail env.request_id (
                some (
                  task_acquired_fail (record { task_id = p.task_id; reason = Task.error_text e }))))
          | ok a ↦
              reply (with_metrics (task_claimed p.task_id id default_lease_duration (clock 3)) v₁)
                id
                (encoded c msg_task_acquired_ok env.request_id (
                  some (
                    task_acquired_ok
                      (record { task_id = p.task_id; lease_until = a.lease_until / second }))))
        ]
  ]

  unfoldable pub handle_release : Server → String → Envelope → (ℕ → ℕ) → Handled
  unfolding send_error with_metrics
  handle_release v id env clock = elim (decode c.release_task env) [
    | err e ↦ send_error v id env.request_id "bad_payload" e
    | ok p ↦
        let (res, r, o) = release v.registry v.outer p.task_id id (clock 0) in
        let v₁ = record v { registry = r; outer = o } in
        elim res [
          | err e ↦ send_error v₁ id env.request_id "release_failed" (Task.error_text e)
          | ok u ↦ (ok tt, with_metrics (task_released p.task_id id) v₁)
        ]
  ]

  -- The end of handleSubmit, once the merge function has decided.
  unfoldable pub conclude : Server → String → String → String → SubmitOutcome → ℕ → Handled
  unfolding reject_result with_metrics
  conclude v id request_id task_id res now =
      if res.accepted
      then reply (with_metrics (task_completed task_id id now) v) id (
          encoded c msg_result_accepted request_id
            (some (result_accepted (record { task_id = task_id }))))
      else reject_result (with_metrics (task_rejected task_id id res.reason) v) id request_id
          task_id res.reason

  unfoldable pub handle_submit : Server → String → Envelope → (ℕ → ℕ) → Handled
  unfolding send_error reject_result conclude with_metrics
  handle_submit v id env clock = elim (decode c.submit_result env) [
    | err e ↦ send_error v id env.request_id "bad_payload" e
    | ok p ↦ elim (Task.get v.registry p.task_id) [
      | err e ↦
          reject_result (with_metrics (task_rejected p.task_id id "task not found") v) id
            env.request_id p.task_id "task not found"
      | ok t ↦
          if str_eq t.owner_id id
          then (let (res, w, o) =
                submit v.merge_fn v.world v.outer (λ i. clock (suc i))
                  (record {
                    task_id = p.task_id;
                    owner_id = id;
                    payload = p.payload;
                    meta = p.meta;
                  }) in
              conclude (record v { world = w; outer = o }) id env.request_id p.task_id res
                (clock 0))
          else reject_result (with_metrics (task_rejected p.task_id id "not owner") v) id
              env.request_id p.task_id "not owner"
    ]
  ]

  -- The loop of handleSubscribe, which ignores what Send returns.
  unfoldable pub send_available : Server → String → List Task → Server
  unfolding reply
  send_available v id [] = v
  send_available v id (t ∷ ts) =
      send_available
        (reply v id (
          encoded c msg_task_available ""
            (some (task_available (record { task_id = t.id; tags = t.tags; hint = t.hint }))))).1
        id ts

  unfoldable pub handle_subscribe : Server → String → Envelope → Handled
  unfolding send_error through_session send_available
  handle_subscribe v id env = elim (decode c.subscribe env) [
    | err e ↦ send_error v id env.request_id "bad_payload" e
    | ok p ↦ (
      ok tt,
      send_available (through_session id (subscribe p.tags) v) id
          (list_available v.registry p.tags),
    )
  ]

  unfoldable pub handle_unsubscribe : Server → String → Envelope → Handled
  unfolding send_error through_session
  handle_unsubscribe v id env = elim (decode c.subscribe env) [
    | err e ↦ send_error v id env.request_id "bad_payload" e
    | ok p ↦ (ok tt, through_session id (unsubscribe p.tags) v)
  ]

  unfoldable pub handle_ping : Server → String → Envelope → Handled
  unfolding reply
  handle_ping v id env = reply v id (encoded c msg_pong env.request_id none)

  -- The switch on the type of a message.
  unfoldable pub dispatch : Server → String → Envelope → (ℕ → ℕ) → Handled
  unfolding handle_acquire handle_release handle_submit handle_subscribe handle_unsubscribe
      handle_ping send_error
  dispatch v id env clock =
      if str_eq env.msg_type msg_acquire_task
      then handle_acquire v id env clock
      else if str_eq env.msg_type msg_release_task
      then handle_release v id env clock
      else if str_eq env.msg_type msg_submit_result
      then handle_submit v id env clock
      else if str_eq env.msg_type msg_subscribe
      then handle_subscribe v id env
      else if str_eq env.msg_type msg_unsubscribe
      then handle_unsubscribe v id env
      else if str_eq env.msg_type msg_ping
      then handle_ping v id env
      else send_error v id env.request_id "unknown_type"
          (join_text "unknown message type: " env.msg_type)

  unfoldable pub handle : Server → String → Envelope → (ℕ → ℕ) → Handled
  handle v id env clock = elim (Session.get v.outer.manager id) [
    | err e ↦ (err e, v)
    | ok s ↦ dispatch v id env clock
  ]
