-- ===== src/Transport/Steps.antt =====
-- Each thing that happens to the server keeps every owned task with a connected session.
use dwcs.Base.{
  ℕ, String, none, [], ◌∷◌, ◌≡◌, ◌≢◌, refl, ap, ◌⊎◌, inl, inr, arith, Result, ok, err, Slice, Bytes,
  Option-cases, Bool-cases, str_eq, str_eq_iff,
}
use dwcs.GoMap.{GoMap, lookup, insert}
use dwcs.GoMap.Laws.{lookup-insert_self, lookup-insert, lookup-delete}
use dwcs.Session.{
  new_session, Session, SessionError, Manager, add, remove, each, each_entry, send_to,
}
use dwcs.Protocol.{Codec, Envelope}
use dwcs.Task.Owners.{
  IsOwnedBy-mono, register-IsOwnedBy, evict_expired-IsOwnedBy, release_all-IsOwnedBy,
}
use dwcs.Task.Calm.{
  IsCalm-same, register_calm, register-handlers, evict_expired_calm, release_all_calm,
}
use dwcs.Task.{register, evict_expired, release_all}
use dwcs.Projector.{tick}
use dwcs.Backend.{Server, on_connect, on_disconnect}
use dwcs.Dispatcher.{handle}
use dwcs.Transport.{connect, disconnect, complain, read_line, write_one, projects, step}
use dwcs.Transport.Away.{IsAway}
use dwcs.Transport.Owners.{IsHere, IsAttended, adjust-ne, next-IsAttended, moved-IsAttended}
use dwcs.Transport.Handlers.{handle-IsAttended}

module _ {V : Type 0} where
  pub insert-ne :
      (k j : String) (v : V) (m : GoMap V) → lookup j m ≢ none → lookup j (insert k v m) ≢ none
  insert-ne k j v m here gone = elim (Option-cases (lookup j m)) [
    | inl missing ↦ here missing
    | inr (w, found) ↦ ground (arith, lookup-insert k j v m)
  ]

remove-ne :
    (id j : String) (m : Manager)
    → j ≢ id
    → lookup j m.sessions ≢ none
    → lookup j (remove m id).1.sessions ≢ none
unfolding remove
remove-ne id j m other here = elim (Option-cases (lookup id m.sessions)) [
  | inl missing ↦ rw (missing, remove) here
  | inr (s, found) ↦
      rw (found, remove)
        (λ gone. here (ground (arith, lookup-delete id j m.sessions, str_eq_iff id j)))
]

module _ {X : Type 0} where
  pub each_entry-ne :
      (fn : Session → X → Session × X) (id : String) (m : GoMap Session) (x : X)
      → lookup id m ≢ none
      → lookup id (each_entry fn m x).0 ≢ none
  unfolding each_entry lookup
  each_entry-ne fn id [] x here = here
  each_entry-ne fn id ((k, s) ∷ m) x here = elim (Bool-cases (str_eq k id)) [
    | inl e ↦ λ gone. ground (arith, e)
    | inr e ↦ λ gone.
        each_entry-ne fn id m (fn s x).1 (λ missing. here (ground (arith, e, missing)))
          (ground (arith, e, gone))
  ]

module _ {P : String → Type 0} where
  pub connect-IsAttended :
      (id : String) (now : ℕ) (v : Server) → IsAttended P v → IsAttended P (connect id now v)
  unfolding connect on_connect add
  connect-IsAttended id now v a =
      moved-IsAttended v _ refl refl
        (λ j here. insert-ne id j (new_session id now) v.outer.manager.sessions here) a

  -- The new session is there as well.
  pub connected-IsAttended :
      {Q : String → Type 0}
      → (id : String) (now : ℕ) (v : Server) → ((j : String) → Q j → P j ⊎ (j ≡ id))
      → IsAttended P v
      → IsAttended Q (connect id now v)
  unfolding connect on_connect add
  connected-IsAttended {Q} id now v here a =
      let b = connect-IsAttended id now v a in
      record {
        owners = b.owners;
        calm = b.calm;
        apart = b.apart;
        still = b.still;
        present = λ j q. elim (here j q) [
          | inl p ↦ b.present j p
          | inr e ↦ λ gone. ground (
            arith,
            gone,
            e,
            lookup-insert_self id (new_session id now) v.outer.manager.sessions,
            ap (λ k. lookup k (insert id (new_session id now) v.outer.manager.sessions)) e,
          )
        ];
      }

  pub write_one-IsAttended :
      (id : String) (v : Server) → IsAttended P v → IsAttended P (write_one id v)
  unfolding write_one
  write_one-IsAttended id v a =
      moved-IsAttended v _ refl refl (λ j here. adjust-ne id j _ v.outer.manager.sessions here) a

  pub evicts-IsAttended :
      (now : ℕ) (stamp : String → ℕ) (v : Server)
      → IsAttended P v
      → let (r, o) = evict_expired v.registry v.outer now stamp in
        IsAttended P (record v { registry = r; outer = o })
  evicts-IsAttended now stamp v a =
      next-IsAttended v _
        (evict_expired-IsOwnedBy (IsHere v.outer) v.registry a.owners v.outer now stamp)
        (unfold evict_expired in (refl, refl)) refl
        (λ j there.
          evict_expired_calm (λ o. IsHere o j) v.registry (a.calm j) v.outer now stamp there)
        a

  pub registers-IsAttended :
      (id : String) (tags : Slice String) (hint : Bytes) (now stamp : ℕ) (v : Server)
      → IsAttended P v
      → let (res, r, o) = register v.registry v.outer id tags hint now stamp in
        IsAttended P (record v { registry = r; outer = o })
  registers-IsAttended id tags hint now stamp v a =
      next-IsAttended v _
        (register-IsOwnedBy (IsHere v.outer) v.registry a.owners v.outer id tags hint now stamp)
        (register-handlers v.registry v.outer id tags hint now stamp) refl
        (λ j there.
          register_calm (λ o. IsHere o j) v.registry (a.calm j) v.outer id tags hint now stamp
            there)
        a

  -- Its own tasks are released first, so that none of the others loses its owner.
  pub disconnect-IsAttended :
      {Q : String → Type 0}
      → (id : String) (stamp : String → ℕ) (v : Server) → ((j : String) → Q j → P j × (j ≢ id))
      → IsAttended P v
      → IsAttended Q (disconnect id stamp v)
  unfolding disconnect on_disconnect remove
  disconnect-IsAttended id stamp v left a =
      let o = (release_all v.registry v.outer id stamp).2 in
      let r = (release_all v.registry v.outer id stamp).1 in
      let stays : (j : String) → IsHere v.outer j → IsHere o j =
        λ j here. release_all_calm (λ x. IsHere x j) v.registry (a.calm j) v.outer id stamp here in
      record {
        owners =
            IsOwnedBy-mono (λ owner. IsHere v.outer owner × (owner ≢ id))
              (IsHere (disconnect id stamp v).outer) r
              (λ owner h. remove-ne id owner o.manager h.1 (stays owner h.0))
              (release_all-IsOwnedBy (IsHere v.outer) v.registry a.owners v.outer id stamp);
        calm = λ j.
            IsCalm-same (λ x. IsHere x j) v.registry r (unfold release_all in refl)
              (unfold release_all in refl) (a.calm j);
        apart = λ j.
            IsCalm-same (λ x. IsAway x j) v.registry r (unfold release_all in refl)
              (unfold release_all in refl) (a.apart j);
        still = a.still;
        present = λ j q. remove-ne id j o.manager (left j q).1 (stays j (a.present j (left j q).0));
      }

  module _ (c : Codec) where
    pub complain-IsAttended :
        (id code message : String) (v : Server)
        → IsAttended P v
        → IsAttended P (complain c id code message v)
    unfolding complain send_to
    complain-IsAttended id code message v a =
        moved-IsAttended v _ refl refl (λ j here. adjust-ne id j _ v.outer.manager.sessions here) a

    pub read_line-IsAttended :
        (id : String) (line : Bytes) (clock : ℕ → ℕ) (v : Server)
        → IsAttended P v
        → IsAttended P (read_line c id line clock v)
    unfolding read_line
    read_line-IsAttended id line clock v a = split (c.unmarshal_envelope line) refl
      where
        handled :
            (env : Envelope) (x : Result SessionError (Unit {0}))
            → c.unmarshal_envelope line ≡ ok env
            → (handle c v id env clock).0 ≡ x
            → IsAttended P (read_line c id line clock v)
        handled env (ok u) q r = rw (q, r, read_line) (handle-IsAttended c v id env clock a)
        handled env (err e) q r =
            rw (q, r, read_line)
              (complain-IsAttended id _ _ _ (handle-IsAttended c v id env clock a))

        split :
            (x : Result String Envelope)
            → c.unmarshal_envelope line ≡ x
            → IsAttended P (read_line c id line clock v)
        split (err e) q = rw (q, read_line) (complain-IsAttended id _ _ v a)
        split (ok env) q = handled env _ q refl

module _ {P : String → Type 0} where
  module _ (c : Codec) where
    pub projects-IsAttended : (v : Server) → IsAttended P v → IsAttended P (step c v projects)
    unfolding step tick each
    projects-IsAttended v a =
        moved-IsAttended v _ refl refl (λ j here. each_entry-ne _ j v.outer.manager.sessions _ here)
          a
