-- ===== src/Task/Owners.antt =====
-- Whom the owned tasks belong to, for any predicate on owners.
use dwcs.Base.{
  ℕ, String, some, ◌≡◌, ◌≢◌, refl, sym, ap, ◌∙◌, subst, inl, inr, arith, Result, ok, err, Slice,
  Bytes, Duration, Option-cases, Bool-cases, str_eq, str_eq_iff,
}
use dwcs.GoMap.{lookup, insert}
use dwcs.GoMap.Laws.{lookup-insert, lookup-map_values}
use dwcs.Task.Acquire.{acquire_refused, acquire_granted, lookup-acquire_ne}
use dwcs.Task.{
  TaskError, AcquireResult, Task, owned, Registry, free_if, is_owned_by, is_lapsed, granted_to,
  register, acquire, release, release_all, evict_expired,
}

module _ {S : Type 0} where
  -- The owner of each owned task satisfies `P`.
  pub record IsOwnedBy (P : String → Type 0) (r : Registry S) : Type 0 where
    pub at_key :
        (k : String) (t : Task) → lookup k r.tasks ≡ some t → t.status ≡ owned → P t.owner_id

  -- An owned task that was not there before is the caller's.
  module _ (P : String → Type 0) (r : Registry S) (o : IsOwnedBy P r) where
    pub insert-IsOwnedBy :
        (r' : Registry S) (id : String) (t : Task)
        → r'.tasks ≡ insert id t r.tasks
        → (t.status ≡ owned → P t.owner_id)
        → IsOwnedBy P r'
    insert-IsOwnedBy r' id t e mine = record {
      at_key = λ k u found is_owned. elim (Bool-cases (str_eq id k)) [
        | inl same ↦
            (let e' : u ≡ t = ground (arith, lookup-insert id k t r.tasks) in
              rw e' (mine (ground arith)))
        | inr other ↦ o.at_key k u (ground (arith, lookup-insert id k t r.tasks)) is_owned
      ];
    }

    pub register-IsOwnedBy :
        (s : S) (id : String) (tags : Slice String) (hint : Bytes) (now stamp : ℕ)
        → IsOwnedBy P (register r s id tags hint now stamp).1
    unfolding register
    register-IsOwnedBy s id tags hint now stamp = elim (Option-cases (lookup id r.tasks)) [
      | inl missing ↦
          rw (missing, register) (insert-IsOwnedBy _ id _ refl (λ e. absurd (ground arith)))
      | inr (t, found) ↦ rw (found, register) o
    ]

    pub acquire-IsOwnedBy :
        (s : S) (id owner : String) (dur : Duration) (checked now stamp : ℕ)
        → P owner
        → IsOwnedBy P (acquire r s id owner dur checked now stamp).1
    acquire-IsOwnedBy s id owner dur checked now stamp mine =
        split (acquire r s id owner dur checked now stamp).0 refl
      where
        split :
            (x : Result TaskError AcquireResult)
            → (acquire r s id owner dur checked now stamp).0 ≡ x
            → IsOwnedBy P (acquire r s id owner dur checked now stamp).1
        split (err e) q =
            subst (IsOwnedBy P) (sym (acquire_refused r s id owner dur checked now stamp e q).0) o
        split (ok a) q =
            let (t, found, was, is, stored, late) =
              acquire_granted r s id owner dur checked now stamp a q in
            let to_caller : a.task.owner_id ≡ owner = unfold granted_to in ground (arith, is) in
            record {
              at_key = λ k u there is_owned. elim (Bool-cases (str_eq id k)) [
                | inl same ↦
                    (let e' : u ≡ a.task = ground (arith, stored, str_eq_iff id k) in
                      subst P (sym (ap (λ (v : Task). v.owner_id) e' ∙ to_caller)) mine)
                | inr other ↦
                    o.at_key k u
                      (ground (
                        arith,
                        lookup-acquire_ne r s id owner dur checked now stamp k,
                        str_eq_iff id k,
                      ))
                      is_owned
              ];
            }

    pub release-IsOwnedBy :
        (s : S) (id owner : String) (now : ℕ) → IsOwnedBy P (release r s id owner now).1
    unfolding release
    release-IsOwnedBy s id owner now = elim (Option-cases (lookup id r.tasks)) [
      | inl missing ↦ rw (missing, release) o
      | inr (t, found) ↦ elim (Bool-cases (str_eq t.owner_id owner)) [
        | inl mine ↦
            rw (found, mine, release) (insert-IsOwnedBy _ id _ refl (λ e. absurd (ground arith)))
        | inr other ↦ rw (found, other, release) o
      ]
    ]

    pub evict_expired-IsOwnedBy :
        (s : S) (now : ℕ) (stamp : String → ℕ) → IsOwnedBy P (evict_expired r s now stamp).0
    unfolding evict_expired
    evict_expired-IsOwnedBy s now stamp = record {
      at_key = λ k u found is_owned. elim (Option-cases (lookup k r.tasks)) [
        | inl missing ↦
            absurd (ground (arith, lookup-map_values k (free_if (is_lapsed now) stamp) r.tasks))
        | inr (t, there) ↦ elim (Bool-cases (is_lapsed now t)) [
          | inl old ↦ absurd (
              unfold free_if in
              ground (arith, lookup-map_values k (free_if (is_lapsed now) stamp) r.tasks))
          | inr young ↦
              o.at_key k u
                (unfold free_if in
                  ground (arith, lookup-map_values k (free_if (is_lapsed now) stamp) r.tasks))
                is_owned
        ]
      ];
    }

    -- ReleaseAll leaves no task with the session.
    pub release_all-IsOwnedBy :
        (s : S) (by : String) (stamp : String → ℕ)
        → IsOwnedBy (λ owner. P owner × (owner ≢ by)) (release_all r s by stamp).1
    unfolding release_all
    release_all-IsOwnedBy s by stamp = record {
      at_key = λ k u found is_owned. elim (Option-cases (lookup k r.tasks)) [
        | inl missing ↦
            absurd (ground (arith, lookup-map_values k (free_if (is_owned_by by) stamp) r.tasks))
        | inr (t, there) ↦ elim (Bool-cases (is_owned_by by t)) [
          | inl his ↦ absurd (
              unfold free_if in
              ground (arith, lookup-map_values k (free_if (is_owned_by by) stamp) r.tasks))
          | inr other ↦
              (let e : u ≡ t =
                  unfold free_if in
                  ground (arith, lookup-map_values k (free_if (is_owned_by by) stamp) r.tasks) in
                rw e (
                  o.at_key k t there (sym (ap (λ (v : Task). v.status) e) ∙ is_owned),
                  λ his. unfold is_owned_by in ground (arith, str_eq_iff t.owner_id by),
                ))
        ]
      ];
    }

  pub IsOwnedBy-mono :
      (P R : String → Type 0) (r : Registry S)
      → ((owner : String) → P owner → R owner)
      → IsOwnedBy P r
      → IsOwnedBy R r
  IsOwnedBy-mono P R r f o = record {
    at_key = λ k t found is_owned. f t.owner_id (o.at_key k t found is_owned);
  }
