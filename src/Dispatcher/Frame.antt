-- ===== src/Dispatcher/Frame.antt =====
-- Who may change what: each kind of message changes only its own part of the server.
use dwcs.Base.{
  if-cases, ℕ, String, none, some, List, [], ◌∷◌, ◌≡◌, ◌≢◌, refl, ◌∙◌, inl, inr, arith, Result, ok,
  err, Bytes, Option-cases, str_eq, str_eq_iff,
}
use dwcs.GoMap.{lookup}
use dwcs.Session.{Session, SessionError, session_not_found, Manager, send, send_to, subscribe}
use dwcs.Session
use dwcs.Protocol.{
  Codec, Envelope, task_available, msg_task_available, SubscribePayload, SubscribePayload,
  msg_acquire_task, msg_release_task, msg_submit_result, msg_subscribe, msg_unsubscribe, msg_ping,
  encoded, decode,
}
use dwcs.Task.{Task, list_available}
use dwcs.Merge.{submit}
use dwcs.Backend.{Server}
use dwcs.Dispatcher.{
  Handled, reply, handle_acquire, handle_release, handle_submit, handle_subscribe,
  handle_unsubscribe, send_available, dispatch, handle, through_session,
}

-- The parts of the server that a reply leaves alone.
abbrev pub SameCore : Server → Server → Type 0
SameCore v v' = (v'.registry ≡ v.registry) × (v'.world ≡ v.world) × (v'.projector ≡ v.projector)

reply-SameCore : (v : Server) (id : String) (msg : Bytes) → SameCore v (reply v id msg).1
unfolding reply
reply-SameCore v id msg = (ground arith, ground arith, ground arith)

module _ (c : Codec) where
  send_available-SameCore :
      (v : Server) (id : String) (ts : List Task) → SameCore v (send_available c v id ts)
  unfolding send_available
  send_available-SameCore v id [] = (refl, refl, refl)
  send_available-SameCore v id (t ∷ ts) =
      let msg =
        encoded c msg_task_available ""
          (some (task_available (record { task_id = t.id; tags = t.tags; hint = t.hint }))) in
      let a = reply-SameCore v id msg in
      let b = send_available-SameCore (reply v id msg).1 id ts in (b.0 ∙ a.0, b.1 ∙ a.1, b.2 ∙ a.2)

  handle_acquire-world :
      (v : Server) (id : String) (env : Envelope) (clock : ℕ → ℕ)
      → ((handle_acquire c v id env clock).1.world ≡ v.world)
        × ((handle_acquire c v id env clock).1.projector ≡ v.projector)
  unfolding handle_acquire
  handle_acquire-world v id env clock = (ground arith, ground arith)

  handle_release-world :
      (v : Server) (id : String) (env : Envelope) (clock : ℕ → ℕ)
      → ((handle_release c v id env clock).1.world ≡ v.world)
        × ((handle_release c v id env clock).1.projector ≡ v.projector)
  unfolding handle_release
  handle_release-world v id env clock = (ground arith, ground arith)

  handle_submit-registry :
      (v : Server) (id : String) (env : Envelope) (clock : ℕ → ℕ)
      → ((handle_submit c v id env clock).1.registry ≡ v.registry)
        × ((handle_submit c v id env clock).1.projector ≡ v.projector)
  unfolding handle_submit
  handle_submit-registry v id env clock = (ground arith, ground arith)

  handle_subscribe-SameCore :
      (v : Server) (id : String) (env : Envelope) → SameCore v (handle_subscribe c v id env).1
  unfolding handle_subscribe
  handle_subscribe-SameCore v id env = split (decode c.subscribe env) refl
    where
      split :
          (x : Result String SubscribePayload)
          → decode c.subscribe env ≡ x
          → SameCore v (handle_subscribe c v id env).1
      split (err e) q = rw (q, handle_subscribe) (reply-SameCore v id _)
      split (ok p) q =
          rw (q, handle_subscribe)
            (send_available-SameCore (through_session id (subscribe p.tags) v) id
              (list_available v.registry p.tags))

  handle_unsubscribe-SameCore :
      (v : Server) (id : String) (env : Envelope) → SameCore v (handle_unsubscribe c v id env).1
  unfolding handle_unsubscribe
  handle_unsubscribe-SameCore v id env = (ground arith, ground arith, ground arith)

  -- To prove something of dispatch, prove it of each handler.
  pub dispatch-cases :
      (P : Handled → Type 0) (v : Server) (id : String) (env : Envelope) (clock : ℕ → ℕ)
      → (env.msg_type ≡ msg_acquire_task → P (handle_acquire c v id env clock))
      → (env.msg_type ≡ msg_release_task → P (handle_release c v id env clock))
      → (env.msg_type ≡ msg_submit_result → P (handle_submit c v id env clock))
      → P (handle_subscribe c v id env)
      → P (handle_unsubscribe c v id env)
      → ((msg : Bytes) → P (reply v id msg))
      → P (dispatch c v id env clock)
  unfolding dispatch
  dispatch-cases P v id env clock acquire release submit subscribe unsubscribe replied =
      let is = λ (t : String). (str_eq_iff env.msg_type t).0 in
      if-cases P (str_eq env.msg_type msg_acquire_task) _ _ (λ e. acquire (is msg_acquire_task e))
        λ _.
          if-cases P (str_eq env.msg_type msg_release_task) _ _
            (λ e. release (is msg_release_task e))
            λ _.
              if-cases P (str_eq env.msg_type msg_submit_result) _ _
                (λ e. submit (is msg_submit_result e))
                λ _.
                  if-cases P (str_eq env.msg_type msg_subscribe) _ _ (λ _. subscribe)
                    λ _.
                      if-cases P (str_eq env.msg_type msg_unsubscribe) _ _ (λ _. unsubscribe)
                        λ _.
                          if-cases P (str_eq env.msg_type msg_ping) _ _ (λ _. replied _)
                            (λ _. replied _)

  dispatch-frame :
      (v : Server) (id : String) (env : Envelope) (clock : ℕ → ℕ)
      → let v' = (dispatch c v id env clock).1 in
        (env.msg_type ≢ msg_submit_result → v'.world ≡ v.world)
        × (env.msg_type ≢ msg_acquire_task
            → env.msg_type ≢ msg_release_task
            → v'.registry ≡ v.registry)
        × (v'.projector ≡ v.projector)
  dispatch-frame v id env clock =
      let P : Handled → Type 0 = λ x.
        (env.msg_type ≢ msg_submit_result → x.1.world ≡ v.world)
        × (env.msg_type ≢ msg_acquire_task
            → env.msg_type ≢ msg_release_task
            → x.1.registry ≡ v.registry)
        × (x.1.projector ≡ v.projector) in
      let same =
        λ (x : Handled) (k : SameCore v x.1). let h : P x = ((λ _. k.1), (λ _ _. k.0), k.2) in h in
      let acq = handle_acquire-world v id env clock in
      let rel = handle_release-world v id env clock in
      let sub = handle_submit-registry v id env clock in
      dispatch-cases P v id env clock (λ e. ((λ _. acq.0), (λ na _. absurd (na e)), acq.1))
        (λ e. ((λ _. rel.0), (λ _ nr. absurd (nr e)), rel.1))
        (λ e. ((λ ns. absurd (ns e)), (λ _ _. sub.0), sub.1))
        (same (handle_subscribe c v id env) (handle_subscribe-SameCore v id env))
        (same (handle_unsubscribe c v id env) (handle_unsubscribe-SameCore v id env))
        (λ msg. same (reply v id msg) (reply-SameCore v id msg))

  -- Only a message of type submit_result touches the world, and only acquire_task and release_task
  -- touch the registry, so that a submission leaves its task with the owner. No message moves the
  -- projector, and one of an unknown session is an error that changes nothing at all.
  pub handle-frame :
      (v : Server) (id : String) (env : Envelope) (clock : ℕ → ℕ)
      → let (res, v') = handle c v id env clock in
        (env.msg_type ≢ msg_submit_result → v'.world ≡ v.world)
        × (env.msg_type ≢ msg_acquire_task
            → env.msg_type ≢ msg_release_task
            → v'.registry ≡ v.registry)
        × (v'.projector ≡ v.projector)
        × (lookup id v.outer.manager.sessions ≡ none → (res ≡ err session_not_found) × (v' ≡ v))
  unfolding handle Session.get
  handle-frame v id env clock = elim (Option-cases (lookup id v.outer.manager.sessions)) [
    | inl missing ↦ (
      (λ _. ground arith),
      (λ _ _. ground arith),
      ground arith,
      λ _. (ground arith, ground arith),
    )
    | inr (s, here) ↦
        let f = dispatch-frame v id env clock in
        (
          (λ ns. rw (here, handle) (f.0 ns)),
          (λ na nr. rw (here, handle) (f.1 na nr)),
          rw (here, handle) f.2,
          λ missing. absurd (ground arith),
        )
  ]
