-- ===== src/Metrics/Tests.antt =====
-- The theorems on the recorder at concrete inputs.
use dwcs.Base.{◌+◌, ◌%◌, ◌^◌, true, List, [], ◌∷◌, ◌≡◌, ◌≢◌}
use dwcs.Metrics.{new_recorder}
use dwcs.Metrics.Totals.{
  Call, claimed, completed, evicted, connected, disconnected, run, IsBalanced,
}
use dwcs.Metrics.Sums.{sum_of}
use dwcs.Metrics.Race.{claim_begin, claim_load, claim_end, claims_lost}

abbrev day : List Call
day =
    connected "ann"
    ∷ claimed "t" "ann" 30 5
    ∷ completed "t" "ann" 3000005
    ∷ claimed "u" "ann" 30 6
    ∷ evicted "u" "ann" "lease_expired"
    ∷ disconnected "ann" 0
    ∷ []

-- Two sessions claim the same task at once.
claims_lost_example :
    let r = run (new_recorder true 1) day in
    let r₁ = claim_begin "t" (claim_begin "t" r) in
    let r₂ =
      claim_end "t" "bob" 30 8
        (claim_load "t" r₁)
        (claim_end "t" "ann" 30 7 (claim_load "t" r₁) r₁) in
    IsBalanced r
    × (r₂.total_claims ≡ (r.total_claims + 2) % 2 ^ 64)
    × (sum_of (λ ts. ts.claims) r₂.tasks % 2 ^ 64 ≡ (r.total_claims + 1) % 2 ^ 64)
    × (r₂.total_claims ≢ sum_of (λ ts. ts.claims) r₂.tasks % 2 ^ 64)
claims_lost_example = claims_lost 1 day "t" "ann" "bob" 30 7 30 8
