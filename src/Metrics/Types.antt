-- ===== src/Metrics/Types.antt =====
-- internal/metrics/metrics.go: the data of the recorder.
use dwcs.Base.{ℕ, String, Bool, Option, none, some, List, [], Slice}
use dwcs.GoMap.{GoMap}

pub record TaskStats : Type 0 where
  pub claims : ℕ
  pub completions : ℕ
  pub rejections : ℕ
  pub evictions : ℕ
  pub releases : ℕ
  pub total_compute_ms : ℕ
  pub in_flight : GoMap ℕ

pub record SessionStats : Type 0 where
  pub claims : ℕ
  pub completions : ℕ
  pub rejections : ℕ
  pub evictions : ℕ
  pub current_owned : ℕ

abbrev pub new_task_stats : TaskStats
new_task_stats = record {
  claims = 0;
  completions = 0;
  rejections = 0;
  evictions = 0;
  releases = 0;
  total_compute_ms = 0;
  in_flight = [];
}

abbrev pub new_session_stats : SessionStats
new_session_stats = record {
  claims = 0;
  completions = 0;
  rejections = 0;
  evictions = 0;
  current_owned = 0;
}

unfoldable pub task_stats_or_new : Option TaskStats → TaskStats
task_stats_or_new none = new_task_stats
task_stats_or_new (some ts) = ts

unfoldable pub session_stats_or_new : Option SessionStats → SessionStats
session_stats_or_new none = new_session_stats
session_stats_or_new (some ss) = ss

-- A logged value. A duration stands for its text, which the time package renders.
pub data Value : Type 0 where
  text : String → Value
  number : ℕ → Value
  duration : ℕ → Value
  texts : Slice String → Value

pub record LogEntry : Type 0 where
  pub kind : String
  pub fields : GoMap Value

pub record Recorder : Type 0 where
  pub enabled : Bool
  pub started_at : ℕ
  pub total_claims : ℕ
  pub total_completions : ℕ
  pub total_rejections : ℕ
  pub total_evictions : ℕ
  pub total_releases : ℕ
  pub total_broadcasts : ℕ
  pub tasks : GoMap TaskStats
  pub sessions : GoMap SessionStats
  pub log : List LogEntry
