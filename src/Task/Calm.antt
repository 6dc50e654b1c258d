-- ===== src/Task/Calm.antt =====
-- What the callbacks keep of the callers' state, the calls of the registry keep of it.
use dwcs.Base.{
  ℕ, String, List, [], ◌∷◌, ◌≡◌, refl, sym, subst, inl, inr, arith, Slice, Bytes, Duration,
  Option-cases, Bool-cases, str_eq,
}
use dwcs.GoMap.{lookup}
use dwcs.Task.{
  Task, Registry, LostEvent, AvailableEvent, Checked, refused, free, reclaimed, acquire_check,
  acquire_grant, reclaim, fire_lost, fire_available, announce_expired, announce_disconnected,
  announce_evicted, register, acquire, release, release_all, evict_expired,
}

module _ {S : Type 0} where
  -- The callbacks keep `Q`.
  pub record IsCalm (Q : S → Type 0) (r : Registry S) : Type 0 where
    pub lost : (evt : LostEvent) (s : S) → Q s → Q (fire_lost evt r.lost_handlers s)
    pub avail : (evt : AvailableEvent) (s : S) → Q s → Q (fire_available evt r.avail_handlers s)

  module _ (Q : S → Type 0) (r : Registry S) (calm : IsCalm Q r) where
    announce_disconnected_calm :
        (by : String) (ts : List Task) (s : S) → Q s → Q (announce_disconnected r by ts s)
    unfolding announce_disconnected
    announce_disconnected_calm by [] s q = q
    announce_disconnected_calm by (t ∷ ts) s q =
        announce_disconnected_calm by ts _ (calm.lost _ _ (calm.avail _ _ q))

    announce_evicted_calm : (ts : List Task) (s : S) → Q s → Q (announce_evicted r ts s)
    unfolding announce_evicted
    announce_evicted_calm [] s q = q
    announce_evicted_calm (t ∷ ts) s q =
        announce_evicted_calm ts _ (calm.avail _ _ (calm.lost _ _ q))

    pub register_calm :
        (s : S) (id : String) (tags : Slice String) (hint : Bytes) (now stamp : ℕ)
        → Q s
        → Q (register r s id tags hint now stamp).2
    unfolding register
    register_calm s id tags hint now stamp q = elim (Option-cases (lookup id r.tasks)) [
      | inl missing ↦ rw (missing, register) (calm.avail _ _ q)
      | inr (t, found) ↦ rw (found, register) q
    ]

    pub acquire_calm :
        (s : S) (id owner : String) (dur : Duration) (checked now stamp : ℕ)
        → Q s
        → Q (acquire r s id owner dur checked now stamp).2
    unfolding acquire
    acquire_calm s id owner dur checked now stamp q = split (acquire_check r id checked) refl
      where
        split :
            (x : Checked)
            → acquire_check r id checked ≡ x
            → Q (acquire r s id owner dur checked now stamp).2
        split (refused e) e' = rw (e', acquire) q
        split free e' = rw (e', acquire) q
        split (reclaimed t) e' =
            rw (e', acquire) (unfold announce_expired in calm.avail _ _ (calm.lost _ _ q))

    pub release_calm : (s : S) (id owner : String) (now : ℕ) → Q s → Q (release r s id owner now).2
    unfolding release
    release_calm s id owner now q = elim (Option-cases (lookup id r.tasks)) [
      | inl missing ↦ rw (missing, release) q
      | inr (t, found) ↦ elim (Bool-cases (str_eq t.owner_id owner)) [
        | inl mine ↦ rw (found, mine, release) (calm.avail _ _ q)
        | inr other ↦ rw (found, other, release) q
      ]
    ]

    pub release_all_calm :
        (s : S) (by : String) (stamp : String → ℕ) → Q s → Q (release_all r s by stamp).2
    unfolding release_all
    release_all_calm s by stamp q = announce_disconnected_calm by _ s q

    pub evict_expired_calm :
        (s : S) (now : ℕ) (stamp : String → ℕ) → Q s → Q (evict_expired r s now stamp).1
    unfolding evict_expired
    evict_expired_calm s now stamp q = announce_evicted_calm _ s q

  -- A registry with the same callbacks is as calm.
  pub IsCalm-same :
      (Q : S → Type 0) (r r' : Registry S)
      → r'.lost_handlers ≡ r.lost_handlers
      → r'.avail_handlers ≡ r.avail_handlers
      → IsCalm Q r
      → IsCalm Q r'
  IsCalm-same Q r r' l a calm = record {
    lost = λ evt s q. subst (λ hs. Q (fire_lost evt hs s)) (sym l) (calm.lost evt s q);
    avail = λ evt s q. subst (λ hs. Q (fire_available evt hs s)) (sym a) (calm.avail evt s q);
  }

  -- No call changes the callbacks.
  pub acquire-handlers :
      (r : Registry S) (s : S) (id owner : String) (dur : Duration) (checked now stamp : ℕ)
      → let r' = (acquire r s id owner dur checked now stamp).1 in
        (r'.lost_handlers ≡ r.lost_handlers) × (r'.avail_handlers ≡ r.avail_handlers)
  unfolding acquire acquire_grant acquire_check reclaim
  acquire-handlers r s id owner dur checked now stamp = (ground arith, ground arith)

  pub release-handlers :
      (r : Registry S) (s : S) (id owner : String) (now : ℕ)
      → let r' = (release r s id owner now).1 in
        (r'.lost_handlers ≡ r.lost_handlers) × (r'.avail_handlers ≡ r.avail_handlers)
  unfolding release
  release-handlers r s id owner now = (ground arith, ground arith)

  pub register-handlers :
      (r : Registry S) (s : S) (id : String) (tags : Slice String) (hint : Bytes) (now stamp : ℕ)
      → let r' = (register r s id tags hint now stamp).1 in
        (r'.lost_handlers ≡ r.lost_handlers) × (r'.avail_handlers ≡ r.avail_handlers)
  unfolding register
  register-handlers r s id tags hint now stamp = (ground arith, ground arith)
