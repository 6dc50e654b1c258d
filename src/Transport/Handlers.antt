-- ===== src/Transport/Handlers.antt =====
-- The handlers of the dispatcher keep every owned task with a connected session.
use dwcs.Base.{
  ℕ, suc, String, List, [], ◌∷◌, ◌≡◌, refl, inl, inr, arith, Result, ok, err, pos, Option-cases,
  Bool-cases, str_eq,
}
use dwcs.GoMap.{lookup}
use dwcs.Session.{Session, SessionError, subscribe, unsubscribe}
use dwcs.Session
use dwcs.Protocol.{
  Codec, Envelope, AcquireTaskPayload, ReleaseTaskPayload, SubmitResultPayload, SubscribePayload,
  decode,
}
use dwcs.Task.{Task, TaskError, AcquireResult, acquire, release, list_available}
use dwcs.Task
use dwcs.Merge.{Submission, SubmitOutcome, submit}
use dwcs.Backend.{Server}
use dwcs.Dispatcher.{
  send_available, handle_acquire, handle_release, handle_submit, handle_subscribe,
  handle_unsubscribe, handle, conclude,
}
use dwcs.Dispatcher.Frame.{dispatch-cases}
use dwcs.Transport.Owners.{IsHere, IsAttended, moved-IsAttended, reply-IsAttended}
use dwcs.Transport.Parts.{
  acquire-IsAttended, release-IsAttended, submit-IsAttended, through_session-IsAttended,
}

module _ {P : String → Type 0} where
  module _ (c : Codec) where
    handle_acquire-IsAttended :
        (v : Server) (id : String) (env : Envelope) (clock : ℕ → ℕ)
        → IsHere v.outer id
        → IsAttended P v
        → IsAttended P (handle_acquire c v id env clock).1
    unfolding handle_acquire
    handle_acquire-IsAttended v id env clock here a = split (decode c.acquire_task env) refl
      where
        granted :
            (p : AcquireTaskPayload) (x : Result TaskError AcquireResult)
            → decode c.acquire_task env ≡ ok p
            → (acquire v.registry v.outer p.task_id id (pos 0) (clock 0) (clock 1) (clock 2)).0 ≡ x
            → IsAttended P (handle_acquire c v id env clock).1
        granted p (err e) q r =
            rw (q, r, handle_acquire)
              (reply-IsAttended _ id _
                (acquire-IsAttended v p.task_id id (pos 0) (clock 0) (clock 1) (clock 2) here a))
        granted p (ok g) q r =
            rw (q, r, handle_acquire)
              (reply-IsAttended _ id _ (
                moved-IsAttended _ _ refl refl (λ j there. there)
                  (acquire-IsAttended v p.task_id id (pos 0) (clock 0) (clock 1) (clock 2) here a)))

        split :
            (x : Result String AcquireTaskPayload)
            → decode c.acquire_task env ≡ x
            → IsAttended P (handle_acquire c v id env clock).1
        split (err e) q = rw (q, handle_acquire) (reply-IsAttended v id _ a)
        split (ok p) q = granted p _ q refl

    handle_release-IsAttended :
        (v : Server) (id : String) (env : Envelope) (clock : ℕ → ℕ)
        → IsAttended P v
        → IsAttended P (handle_release c v id env clock).1
    unfolding handle_release
    handle_release-IsAttended v id env clock a = split (decode c.release_task env) refl
      where
        released :
            (p : ReleaseTaskPayload) (x : Result TaskError (Unit {0}))
            → decode c.release_task env ≡ ok p
            → (release v.registry v.outer p.task_id id (clock 0)).0 ≡ x
            → IsAttended P (handle_release c v id env clock).1
        released p (err e) q r =
            rw (q, r, handle_release)
              (reply-IsAttended _ id _ (release-IsAttended v p.task_id id (clock 0) a))
        released p (ok u) q r =
            rw (q, r, handle_release)
              (moved-IsAttended _ _ refl refl (λ j there. there)
                (release-IsAttended v p.task_id id (clock 0) a))

        split :
            (x : Result String ReleaseTaskPayload)
            → decode c.release_task env ≡ x
            → IsAttended P (handle_release c v id env clock).1
        split (err e) q = rw (q, handle_release) (reply-IsAttended v id _ a)
        split (ok p) q = released p _ q refl

    conclude-IsAttended :
        (v : Server) (id request_id task_id : String) (res : SubmitOutcome) (now : ℕ)
        → IsAttended P v
        → IsAttended P (conclude c v id request_id task_id res now).1
    unfolding conclude
    conclude-IsAttended v id request_id task_id res now a = elim (Bool-cases res.accepted) [
      | inl e ↦
          rw (e, conclude)
            (reply-IsAttended _ id _ (moved-IsAttended v _ refl refl (λ j there. there) a))
      | inr e ↦
          rw (e, conclude)
            (reply-IsAttended _ id _ (moved-IsAttended v _ refl refl (λ j there. there) a))
    ]

    handle_submit-IsAttended :
        (v : Server) (id : String) (env : Envelope) (clock : ℕ → ℕ)
        → IsAttended P v
        → IsAttended P (handle_submit c v id env clock).1
    unfolding handle_submit
    handle_submit-IsAttended v id env clock a = split (decode c.submit_result env) refl
      where
        told :
            (p : SubmitResultPayload) (x : Result TaskError Task)
            → decode c.submit_result env ≡ ok p
            → Task.get v.registry p.task_id ≡ x
            → IsAttended P (handle_submit c v id env clock).1
        told p (err e) q r =
            rw (q, r, handle_submit)
              (reply-IsAttended _ id _ (moved-IsAttended v _ refl refl (λ j there. there) a))
        told p (ok t) q r = elim (Bool-cases (str_eq t.owner_id id)) [
          | inl e ↦
              (let sub : Submission = record {
                task_id = p.task_id;
                owner_id = id;
                payload = p.payload;
                meta = p.meta;
              } in
                let later : ℕ → ℕ = λ i. clock (suc i) in
                rw (q, r, e, handle_submit)
                  (conclude-IsAttended _ id env.request_id p.task_id
                    (submit v.merge_fn v.world v.outer later sub).0 (clock 0)
                    (submit-IsAttended v later sub a)))
          | inr e ↦
              rw (q, r, e, handle_submit)
                (reply-IsAttended _ id _ (moved-IsAttended v _ refl refl (λ j there. there) a))
        ]

        split :
            (x : Result String SubmitResultPayload)
            → decode c.submit_result env ≡ x
            → IsAttended P (handle_submit c v id env clock).1
        split (err e) q = rw (q, handle_submit) (reply-IsAttended v id _ a)
        split (ok p) q = told p _ q refl

    send_available-IsAttended :
        (id : String) (ts : List Task) (v : Server)
        → IsAttended P v
        → IsAttended P (send_available c v id ts)
    unfolding send_available
    send_available-IsAttended id [] v a = a
    send_available-IsAttended id (t ∷ ts) v a =
        send_available-IsAttended id ts _ (reply-IsAttended v id _ a)

    handle_subscribe-IsAttended :
        (v : Server) (id : String) (env : Envelope)
        → IsAttended P v
        → IsAttended P (handle_subscribe c v id env).1
    unfolding handle_subscribe
    handle_subscribe-IsAttended v id env a = split (decode c.subscribe env) refl
      where
        split :
            (x : Result String SubscribePayload)
            → decode c.subscribe env ≡ x
            → IsAttended P (handle_subscribe c v id env).1
        split (err e) q = rw (q, handle_subscribe) (reply-IsAttended v id _ a)
        split (ok p) q =
            rw (q, handle_subscribe)
              (send_available-IsAttended id (list_available v.registry p.tags) _
                (through_session-IsAttended v id (subscribe p.tags) a))

    handle_unsubscribe-IsAttended :
        (v : Server) (id : String) (env : Envelope)
        → IsAttended P v
        → IsAttended P (handle_unsubscribe c v id env).1
    unfolding handle_unsubscribe
    handle_unsubscribe-IsAttended v id env a = split (decode c.subscribe env) refl
      where
        split :
            (x : Result String SubscribePayload)
            → decode c.subscribe env ≡ x
            → IsAttended P (handle_unsubscribe c v id env).1
        split (err e) q = rw (q, handle_unsubscribe) (reply-IsAttended v id _ a)
        split (ok p) q =
            rw (q, handle_unsubscribe) (through_session-IsAttended v id (unsubscribe p.tags) a)

    pub handle-IsAttended :
        (v : Server) (id : String) (env : Envelope) (clock : ℕ → ℕ)
        → IsAttended P v
        → IsAttended P (handle c v id env clock).1
    unfolding handle Session.get
    handle-IsAttended v id env clock a = elim (Option-cases (lookup id v.outer.manager.sessions)) [
      | inl missing ↦ rw (missing, handle, Session.get) a
      | inr (s, found) ↦
          let here : IsHere v.outer id = λ gone. absurd (ground arith) in
          rw (found, handle, Session.get)
            (dispatch-cases c (λ h. IsAttended P h.1) v id env clock
              (λ e. handle_acquire-IsAttended v id env clock here a)
              (λ e. handle_release-IsAttended v id env clock a)
              (λ e. handle_submit-IsAttended v id env clock a)
              (handle_subscribe-IsAttended v id env a) (handle_unsubscribe-IsAttended v id env a)
              (λ msg. reply-IsAttended v id msg a))
    ]
