-- ===== src/Metrics/Snapshots.antt =====
-- Recorder.Snapshot. The uptime is kept in nanoseconds: the time package renders it.
use dwcs.Base.{
  ℕ, ◌+◌, ◌-◌, ◌*◌, ◌/◌, ◌≤◌, ◌<◌, String, Bool, false, Option, none, some, [], ◌∷◌, ◌≡◌, refl,
  arith, if◌then◌else◌, ltb, lt→ltb,
}
use native.Mathlib.Nat.{div-mul-le_self, lt-div-mul-add}
use dwcs.GoMap.{GoMap, lookup}
use dwcs.Metrics.{Recorder, TaskStats, SessionStats}

pub record Totals : Type 0 where
  pub claims : ℕ
  pub completions : ℕ
  pub rejections : ℕ
  pub evictions : ℕ
  pub releases : ℕ
  pub broadcasts : ℕ

pub record TaskSnap : Type 0 where
  pub claims : ℕ
  pub completions : ℕ
  pub rejections : ℕ
  pub evictions : ℕ
  pub releases : ℕ
  pub avg_compute_ms : ℕ

pub record SessionSnap : Type 0 where
  pub claims : ℕ
  pub completions : ℕ
  pub rejections : ℕ
  pub evictions : ℕ
  pub current_owned : ℕ

pub record Snapshot : Type 0 where
  pub uptime : ℕ
  pub enabled : Bool
  pub totals : Totals
  pub per_task : GoMap TaskSnap
  pub per_session : GoMap SessionSnap

unfoldable pub avg_of : TaskStats → ℕ
avg_of ts = if ltb 0 ts.completions then ts.total_compute_ms / ts.completions else 0

unfoldable pub task_snap : TaskStats → TaskSnap
task_snap ts = record {
  claims = ts.claims;
  completions = ts.completions;
  rejections = ts.rejections;
  evictions = ts.evictions;
  releases = ts.releases;
  avg_compute_ms = avg_of ts;
}

unfoldable pub session_snap : SessionStats → SessionSnap
session_snap ss = record {
  claims = ss.claims;
  completions = ss.completions;
  rejections = ss.rejections;
  evictions = ss.evictions;
  current_owned = ss.current_owned;
}

unfoldable pub snap_map : {A B : Type 0} → (A → B) → GoMap A → GoMap B
snap_map f [] = []
snap_map f ((k, v) ∷ m) = (k, f v) ∷ snap_map f m

unfoldable pub totals_of : Recorder → Totals
totals_of r = record {
  claims = r.total_claims;
  completions = r.total_completions;
  rejections = r.total_rejections;
  evictions = r.total_evictions;
  releases = r.total_releases;
  broadcasts = r.total_broadcasts;
}

abbrev pub no_totals : Totals
no_totals = record {
  claims = 0;
  completions = 0;
  rejections = 0;
  evictions = 0;
  releases = 0;
  broadcasts = 0;
}

-- A nil recorder has an empty snapshot.
unfoldable pub snapshot : Option Recorder → ℕ → Snapshot
unfolding task_snap session_snap snap_map totals_of
snapshot none now = record {
  uptime = 0;
  enabled = false;
  totals = no_totals;
  per_task = [];
  per_session = [];
}
snapshot (some r) now = record {
  uptime = now - r.started_at;
  enabled = r.enabled;
  totals = totals_of r;
  per_task = snap_map task_snap r.tasks;
  per_session = snap_map session_snap r.sessions;
}

abbrev pub map_some : {A B : Type 0} → (A → B) → Option A → Option B
map_some f none = none
map_some f (some a) = some (f a)

lookup-snap_map :
    {A B : Type 0} (f : A → B) (k : String) (m : GoMap A)
    → lookup k (snap_map f m) ≡ map_some f (lookup k m)
unfolding lookup snap_map
lookup-snap_map f k [] = refl
lookup-snap_map f k ((j, v) ∷ m) = ground (arith, lookup-snap_map f k m)

avg_of_pos :
    (ts : TaskStats) → 0 < ts.completions → avg_of ts ≡ ts.total_compute_ms / ts.completions
unfolding avg_of
avg_of_pos ts h = rw (lt→ltb 0 ts.completions h)

-- A snapshot has one entry for each task and session of the recorder and no other, with its
-- counters; the average is the compute time shared among the completions, rounded down, and 0
-- where there are none.
pub lookup-snapshot :
    (r : Recorder) (now : ℕ) (k : String)
    → let s = snapshot (some r) now in
      (lookup k s.per_task ≡ map_some task_snap (lookup k r.tasks))
      × (lookup k s.per_session ≡ map_some session_snap (lookup k r.sessions))
      × ((ts : TaskStats)
          → 0 < ts.completions
          → ((task_snap ts).avg_compute_ms * ts.completions ≤ ts.total_compute_ms)
            × (ts.total_compute_ms < ((task_snap ts).avg_compute_ms + 1) * ts.completions))
      × ((ts : TaskStats) → ts.completions ≡ 0 → (task_snap ts).avg_compute_ms ≡ 0)
unfolding snapshot task_snap
lookup-snapshot r now k = (
  lookup-snap_map task_snap k r.tasks,
  lookup-snap_map session_snap k r.sessions,
  (λ ts some_done. (
    rw (avg_of_pos ts some_done) (div-mul-le_self ts.total_compute_ms ts.completions),
    rw (avg_of_pos ts some_done)
        (omega (arith, lt-div-mul-add {a = ts.total_compute_ms} some_done)),
  )),
  λ ts none_done. unfold avg_of in ground arith,
)
