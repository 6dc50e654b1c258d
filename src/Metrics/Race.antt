-- ===== src/Metrics/Race.antt =====
-- TaskClaimed in its steps. The totals are atomics, but `ts.Claims++` reads and writes the counter of the
-- task with no lock held, and so do the other methods with their counters.
use dwcs.Base.{
  ℕ, ◌+◌, ◌%◌, ◌^◌, String, Bool, true, List, [], ◌∷◌, ◌≡◌, ◌≢◌, refl, ap, ◌∙◌, arith, next_uint64,
  str_eq_refl, if◌then◌else◌,
}
use dwcs.GoMap.{GoMap, lookup, insert}
use dwcs.GoMap.Laws.{lookup-insert_self}
use dwcs.Metrics.{
  Recorder, TaskStats, text, duration, task_stats_or_new, new_task_stats, new_recorder,
  through_task, through_session, log_event, task_claimed,
}
use dwcs.Metrics.Sums.{sum_of, sum_of-next, sum_of-same}
use dwcs.Metrics.Totals.{Call, run, IsBalanced, run-new-IsBalanced}

-- r.totalClaims.Add(1); ts := r.getOrCreateTask(taskID)
unfoldable pub claim_begin : String → Recorder → Recorder
unfolding through_task
claim_begin task r =
    through_task task (λ ts. ts) (record r { total_claims = next_uint64 r.total_claims })

-- The read of ts.Claims++.
unfoldable pub claim_load : String → Recorder → ℕ
claim_load task r = (task_stats_or_new (lookup task r.tasks)).claims

-- The write of ts.Claims++ when `n` was read, and the rest of the method.
unfoldable pub claim_end : String → String → ℕ → ℕ → ℕ → Recorder → Recorder
unfolding through_task through_session log_event
claim_end task owner lease now n r =
    log_event "task_claimed"
      (("task", text task) ∷ ("owner", text owner) ∷ ("lease", duration lease) ∷ [])
      (through_session owner
        (λ ss. record ss {
          claims = next_uint64 ss.claims;
          current_owned = next_uint64 ss.current_owned;
        })
        (through_task task
          (λ ts. record ts { claims = next_uint64 n; in_flight = insert owner now ts.in_flight })
          r))

insert_twice :
    {V : Type 0} (k : String) (v w : V) (m : GoMap V) → insert k w (insert k v m) ≡ insert k w m
unfolding insert
insert_twice k v w [] = ground (arith, str_eq_refl k)
insert_twice k v w ((j, x) ∷ m) = ground (arith, insert_twice k v w m, str_eq_refl k)

claimed_again :
    (task owner : String) (now : ℕ) (m : GoMap TaskStats)
    → let u = task_stats_or_new (lookup task m) in
      let v = task_stats_or_new (lookup task (insert task u m)) in
      insert task
        (record v { claims = next_uint64 v.claims; in_flight = insert owner now v.in_flight })
        (insert task u m)
      ≡ insert task
          (record u { claims = next_uint64 u.claims; in_flight = insert owner now u.in_flight })
          m
claimed_again task owner now m =
    let u = task_stats_or_new (lookup task m) in
    let back : task_stats_or_new (lookup task (insert task u m)) ≡ u =
      ap task_stats_or_new (lookup-insert_self task u m) ∙ unfold task_stats_or_new in refl in
    ap
      (λ (v : TaskStats).
        insert task
          (record v { claims = next_uint64 v.claims; in_flight = insert owner now v.in_flight })
          (insert task u m))
      back
    ∙ insert_twice task u _ m

if_on {ℓ} : {A : Type ℓ} (b : Bool) (x y : A) → b ≡ true → x ≡ (if b then x else y)
if_on b x y on = rw on

-- With nothing in between the steps are the method.
task_claimed-steps :
    (task owner : String) (lease now : ℕ) (r : Recorder)
    → r.enabled ≡ true
    → let r₁ = claim_begin task r in
      claim_end task owner lease now (claim_load task r₁) r₁ ≡ task_claimed task owner lease now r
unfolding claim_begin claim_load claim_end task_claimed through_task
task_claimed-steps task owner lease now r on =
    ap
      (λ (m : GoMap TaskStats).
        log_event "task_claimed"
          (("task", text task) ∷ ("owner", text owner) ∷ ("lease", duration lease) ∷ [])
          (through_session owner
            (λ ss. record ss {
              claims = next_uint64 ss.claims;
              current_owned = next_uint64 ss.current_owned;
            })
            (record r { total_claims = next_uint64 r.total_claims; tasks = m })))
      (claimed_again task owner now r.tasks)
    ∙ if_on r.enabled _ r on

-- Of the four writes only the third one moves the counter.
sum_of-overlap :
    (g : TaskStats → ℕ) (k : String) (m : GoMap TaskStats) (u v w x : TaskStats)
    → g new_task_stats ≡ 0
    → g u ≡ g (task_stats_or_new (lookup k m))
    → g v ≡ g (task_stats_or_new (lookup k (insert k u m)))
    → g w ≡ next_uint64 (g (task_stats_or_new (lookup k (insert k v (insert k u m)))))
    → g x ≡ g w
    → sum_of g (insert k x (insert k w (insert k v (insert k u m)))) % 2 ^ 64
      ≡ next_uint64 (sum_of g m % 2 ^ 64)
sum_of-overlap g k m u v w x z hu hv hw hx =
    let m₁ = insert k u m in
    let m₂ = insert k v m₁ in
    let m₃ = insert k w m₂ in
    let last : g x ≡ g (task_stats_or_new (lookup k m₃)) =
      unfold task_stats_or_new in rw (lookup-insert_self k w m₂) hx in
    omega (
      arith,
      sum_of-same g k u m z hu,
      sum_of-same g k v m₁ z hv,
      sum_of-next g k w m₂ z hw,
      sum_of-same g k x m₃ z last,
    )

overlap-sum :
    (r : Recorder) (task a b : String) (lease_a now_a lease_b now_b : ℕ)
    → let r₁ = claim_begin task (claim_begin task r) in
      let r₂ =
        claim_end task b lease_b now_b
          (claim_load task r₁)
          (claim_end task a lease_a now_a (claim_load task r₁) r₁) in
      (r₂.total_claims ≡ next_uint64 (next_uint64 r.total_claims))
      × (sum_of (λ ts. ts.claims) r₂.tasks % 2 ^ 64
          ≡ next_uint64 (sum_of (λ ts. ts.claims) r.tasks % 2 ^ 64))
unfolding claim_begin claim_load claim_end
overlap-sum r task a b lease_a now_a lease_b now_b =
    (refl, sum_of-overlap (λ ts. ts.claims) task r.tasks _ _ _ _ refl refl refl refl refl)

-- After any history of calls that come one after the other, each total of claims, completions,
-- rejections, evictions and releases is the sum of that counter over the tasks, modulo 2^64. But when
-- two calls of TaskClaimed on one task then overlap, so that both read the counter of the task before
-- either writes it, the total of claims counts both of them, the sum counts one, and the two differ.
pub claims_lost :
    (start : ℕ) (cs : List Call) (task a b : String) (lease_a now_a lease_b now_b : ℕ)
    → let r = run (new_recorder true start) cs in
      let r₁ = claim_begin task (claim_begin task r) in
      let r₂ =
        claim_end task b lease_b now_b
          (claim_load task r₁)
          (claim_end task a lease_a now_a (claim_load task r₁) r₁) in
      IsBalanced r
      × (r₂.total_claims ≡ (r.total_claims + 2) % 2 ^ 64)
      × (sum_of (λ ts. ts.claims) r₂.tasks % 2 ^ 64 ≡ (r.total_claims + 1) % 2 ^ 64)
      × (r₂.total_claims ≢ sum_of (λ ts. ts.claims) r₂.tasks % 2 ^ 64)
claims_lost start cs task a b lease_a now_a lease_b now_b =
    let r = run (new_recorder true start) cs in
    let balanced = run-new-IsBalanced true start cs in
    let (total, sum) = overlap-sum r task a b lease_a now_a lease_b now_b in
    (
      balanced,
      omega (arith, total),
      omega (arith, sum, balanced.claims),
      λ e. omega (arith, total, sum, balanced.claims, e),
    )
