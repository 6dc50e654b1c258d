-- ===== src/Session/Tests.antt =====
-- The theorems on sessions at concrete inputs.
use mathlib.Core.List.{Sublist}
use dwcs.Base.{◌≤◌, false, some, List, [], ◌∷◌, ◌++◌, length}
use dwcs.Session.{Session, Manager, new_session}
use dwcs.Session.Outbox.{Event, sends, takes, closes, play, play-sublist, play-new-length-le}

abbrev ann : Session
ann = record {
  id = "ann";
  connected_at = 1;
  tags = ("x", tt) ∷ [];
  outbox = some (9 ∷ []) ∷ [];
  closed = false;
}

abbrev traffic : List Event
traffic = sends (some (1 ∷ [])) ∷ takes ∷ closes ∷ sends (some (2 ∷ [])) ∷ takes ∷ []

abbrev lobby : Manager
lobby = record { sessions = ("ann", ann) ∷ [] }

play-sublist_example :
    Sublist
      ((play ann traffic).0 ++ (play ann traffic).1.outbox)
      (some (9 ∷ []) ∷ some (1 ∷ []) ∷ some (2 ∷ []) ∷ [])
play-sublist_example = play-sublist ann traffic

play-new-length-le_example : length (play (new_session "ann" 1) traffic).1.outbox ≤ 512
play-new-length-le_example = play-new-length-le "ann" 1 traffic
