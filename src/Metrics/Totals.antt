-- ===== src/Metrics/Totals.antt =====
-- The totals and the counters by task, for methods that come one after the other.
use dwcs.Base.{
  ℕ, ◌%◌, ◌^◌, String, Bool, true, false, List, [], ◌∷◌, ◌≡◌, refl, ◌⊎◌, inl, inr, arith, Slice,
  next_uint64, if◌then◌else◌,
}
use dwcs.GoMap.{GoMap, lookup, insert}
use dwcs.Metrics.{
  Recorder, TaskStats, new_task_stats, task_stats_or_new, new_recorder, task_registered,
  task_claimed, task_completed, task_rejected, task_released, task_evicted, world_updated,
  broadcast_done, session_connected, session_disconnected, complete_task,
}
use dwcs.Metrics.Sums.{sum_of, sum_of-next, sum_of-same}

pub data Call : Type 0 where
  registered : String → Slice String → Call
  claimed : String → String → ℕ → ℕ → Call
  completed : String → String → ℕ → Call
  rejected evicted : String → String → String → Call
  released : String → String → Call
  updated : String → ℕ → ℕ → Call
  broadcasts : ℕ → ℕ → Call
  connected : String → Call
  disconnected : String → ℕ → Call

unfoldable pub step : Recorder → Call → Recorder
step r (registered task tags) = task_registered task tags r
step r (claimed task owner lease now) = task_claimed task owner lease now r
step r (completed task owner now) = task_completed task owner now r
step r (rejected task owner reason) = task_rejected task owner reason r
step r (evicted task owner reason) = task_evicted task owner reason r
step r (released task owner) = task_released task owner r
step r (updated object prev_version new_version) = world_updated object prev_version new_version r
step r (broadcasts subscribers objects) = broadcast_done subscribers objects r
step r (connected session) = session_connected session r
step r (disconnected session n) = session_disconnected session n r

unfoldable pub run : Recorder → List Call → Recorder
run r [] = r
run r (c ∷ cs) = run (step r c) cs

-- Each total is the sum of its counter over the tasks, modulo 2^64.
pub record IsBalanced (r : Recorder) : Type 0 where
  pub claims : r.total_claims ≡ sum_of (λ ts. ts.claims) r.tasks % 2 ^ 64
  pub completions : r.total_completions ≡ sum_of (λ ts. ts.completions) r.tasks % 2 ^ 64
  pub rejections : r.total_rejections ≡ sum_of (λ ts. ts.rejections) r.tasks % 2 ^ 64
  pub evictions : r.total_evictions ≡ sum_of (λ ts. ts.evictions) r.tasks % 2 ^ 64
  pub releases : r.total_releases ≡ sum_of (λ ts. ts.releases) r.tasks % 2 ^ 64

IsBalanced-if :
    (b : Bool) (r r' : Recorder) → IsBalanced r' → IsBalanced r → IsBalanced (if b then r' else r)
IsBalanced-if true r r' h k = h
IsBalanced-if false r r' h k = k

-- A counter and its total before and after: both stay, or both count one more.
abbrev Together : ℕ → ℕ → ℕ → ℕ → Type 0
Together total total' n n' =
    ((total' ≡ total) × (n' ≡ n)) ⊎ ((total' ≡ next_uint64 total) × (n' ≡ next_uint64 n))

balance :
    (g : TaskStats → ℕ) (k : String) (v : TaskStats) (m : GoMap TaskStats) (total total' : ℕ)
    → g new_task_stats ≡ 0
    → Together total total' (g (task_stats_or_new (lookup k m))) (g v)
    → total ≡ sum_of g m % 2 ^ 64
    → total' ≡ sum_of g (insert k v m) % 2 ^ 64
balance g k v m total total' z (inl (t, n)) b = omega (arith, sum_of-same g k v m z n)
balance g k v m total total' z (inr (t, n)) b = omega (arith, sum_of-next g k v m z n)

abbrev old : Recorder → String → TaskStats
old r task = task_stats_or_new (lookup task r.tasks)

module _ (r r' : Recorder) (task : String) (v : TaskStats) where
  through-IsBalanced :
      r'.tasks ≡ insert task v r.tasks
      → Together r.total_claims r'.total_claims (old r task).claims v.claims
      → Together r.total_completions r'.total_completions (old r task).completions v.completions
      → Together r.total_rejections r'.total_rejections (old r task).rejections v.rejections
      → Together r.total_evictions r'.total_evictions (old r task).evictions v.evictions
      → Together r.total_releases r'.total_releases (old r task).releases v.releases
      → IsBalanced r
      → IsBalanced r'
  through-IsBalanced e c p j x l b = record {
    claims =
        rw e
          (balance (λ ts. ts.claims) task v r.tasks r.total_claims r'.total_claims refl c b.claims);
    completions = rw e (
        balance (λ ts. ts.completions) task v r.tasks r.total_completions r'.total_completions refl
          p b.completions);
    rejections = rw e (
        balance (λ ts. ts.rejections) task v r.tasks r.total_rejections r'.total_rejections refl j
          b.rejections);
    evictions = rw e (
        balance (λ ts. ts.evictions) task v r.tasks r.total_evictions r'.total_evictions refl x
          b.evictions);
    releases = rw e (
        balance (λ ts. ts.releases) task v r.tasks r.total_releases r'.total_releases refl l
          b.releases);
  }

-- What completion does to the other counters.
complete_task-counters :
    (owner : String) (now : ℕ) (ts : TaskStats)
    → let ts' = complete_task owner now ts in
      (ts'.claims ≡ ts.claims)
      × (ts'.completions ≡ next_uint64 ts.completions)
      × (ts'.rejections ≡ ts.rejections)
      × (ts'.evictions ≡ ts.evictions)
      × (ts'.releases ≡ ts.releases)
unfolding complete_task
complete_task-counters owner now ts = ground arith

step-IsBalanced : (r : Recorder) (c : Call) → IsBalanced r → IsBalanced (step r c)
unfolding step task_registered task_claimed task_completed task_rejected task_released task_evicted
    world_updated broadcast_done session_connected session_disconnected
step-IsBalanced r (registered task tags) b =
    IsBalanced-if r.enabled r _
      (through-IsBalanced r _ task _ refl (inl (refl, refl)) (inl (refl, refl)) (inl (refl, refl))
        (inl (refl, refl)) (inl (refl, refl)) b)
      b
step-IsBalanced r (claimed task owner lease now) b =
    IsBalanced-if r.enabled r _
      (through-IsBalanced r _ task _ refl (inr (refl, refl)) (inl (refl, refl)) (inl (refl, refl))
        (inl (refl, refl)) (inl (refl, refl)) b)
      b
step-IsBalanced r (completed task owner now) b =
    let (c, p, j, x, l) = complete_task-counters owner now (old r task) in
    IsBalanced-if r.enabled r _
      (through-IsBalanced r _ task _ refl (inl (refl, c)) (inr (refl, p)) (inl (refl, j))
        (inl (refl, x)) (inl (refl, l)) b)
      b
step-IsBalanced r (rejected task owner reason) b =
    IsBalanced-if r.enabled r _
      (through-IsBalanced r _ task _ refl (inl (refl, refl)) (inl (refl, refl)) (inr (refl, refl))
        (inl (refl, refl)) (inl (refl, refl)) b)
      b
step-IsBalanced r (evicted task owner reason) b =
    IsBalanced-if r.enabled r _
      (through-IsBalanced r _ task _ refl (inl (refl, refl)) (inl (refl, refl)) (inl (refl, refl))
        (inr (refl, refl)) (inl (refl, refl)) b)
      b
step-IsBalanced r (released task owner) b =
    IsBalanced-if r.enabled r _
      (through-IsBalanced r _ task _ refl (inl (refl, refl)) (inl (refl, refl)) (inl (refl, refl))
        (inl (refl, refl)) (inr (refl, refl)) b)
      b
step-IsBalanced r (updated object prev_version new_version) b =
    IsBalanced-if r.enabled r _
      (record {
        claims = b.claims;
        completions = b.completions;
        rejections = b.rejections;
        evictions = b.evictions;
        releases = b.releases;
      })
      b
step-IsBalanced r (broadcasts subscribers objects) b =
    IsBalanced-if r.enabled r _
      (record {
        claims = b.claims;
        completions = b.completions;
        rejections = b.rejections;
        evictions = b.evictions;
        releases = b.releases;
      })
      b
step-IsBalanced r (connected session) b =
    IsBalanced-if r.enabled r _
      (record {
        claims = b.claims;
        completions = b.completions;
        rejections = b.rejections;
        evictions = b.evictions;
        releases = b.releases;
      })
      b
step-IsBalanced r (disconnected session n) b =
    IsBalanced-if r.enabled r _
      (record {
        claims = b.claims;
        completions = b.completions;
        rejections = b.rejections;
        evictions = b.evictions;
        releases = b.releases;
      })
      b

run-IsBalanced : (r : Recorder) (cs : List Call) → IsBalanced r → IsBalanced (run r cs)
unfolding run
run-IsBalanced r [] b = b
run-IsBalanced r (c ∷ cs) b = run-IsBalanced (step r c) cs (step-IsBalanced r c b)

-- After any history of calls that come one after the other, each total of claims, completions, rejections, evictions and releases
-- is the sum of that counter over the tasks, modulo 2^64.
pub run-new-IsBalanced :
    (enabled : Bool) (now : ℕ) (cs : List Call) → IsBalanced (run (new_recorder enabled now) cs)
unfolding new_recorder sum_of
run-new-IsBalanced enabled now cs = run-IsBalanced _ cs (record {
  claims = refl;
  completions = refl;
  rejections = refl;
  evictions = refl;
  releases = refl;
})

if_off {ℓ} : {A : Type ℓ} (b : Bool) (x y : A) → b ≡ false → (if b then x else y) ≡ y
if_off b x y off = rw off

step-disabled : (r : Recorder) (c : Call) → r.enabled ≡ false → step r c ≡ r
unfolding step task_registered task_claimed task_completed task_rejected task_released task_evicted
    world_updated broadcast_done session_connected session_disconnected
step-disabled r (registered task tags) off = if_off r.enabled _ r off
step-disabled r (claimed task owner lease now) off = if_off r.enabled _ r off
step-disabled r (completed task owner now) off = if_off r.enabled _ r off
step-disabled r (rejected task owner reason) off = if_off r.enabled _ r off
step-disabled r (evicted task owner reason) off = if_off r.enabled _ r off
step-disabled r (released task owner) off = if_off r.enabled _ r off
step-disabled r (updated object p n) off = if_off r.enabled _ r off
step-disabled r (broadcasts n m) off = if_off r.enabled _ r off
step-disabled r (connected session) off = if_off r.enabled _ r off
step-disabled r (disconnected session n) off = if_off r.enabled _ r off

-- A recorder that is off stays as it was, whatever is recorded.
pub run-disabled : (r : Recorder) (cs : List Call) → r.enabled ≡ false → run r cs ≡ r
unfolding run
run-disabled r [] off = refl
run-disabled r (c ∷ cs) off = rw (step-disabled r c off) (run-disabled r cs off)
