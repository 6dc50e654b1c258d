-- ===== src/Command/Tests.antt =====
-- The parsers at concrete inputs.
use dwcs.Base.{some, [], ◌∷◌, ◌≡◌, refl, arith, str_eq, str_eq_iff, keep}
use dwcs.Metrics.Log.{join}
use dwcs.Command.{
  split, put_first, trim_left, trim_right, put_before, trim_space, is_space, is_filled,
  filled_parts, parse_tags, parse_peer_addrs,
}
use dwcs.Command.Parts.{parse_peer_addrs-join}

two_addrs : parse_peer_addrs " a:1,, b:2 " ≡ some ("a:1" ∷ "b:2" ∷ [])
unfolding parse_peer_addrs split put_first trim_left trim_right put_before trim_space is_space
    is_filled filled_parts str_eq
two_addrs = refl

all_tags : parse_tags "" ≡ some ("*" ∷ [])
unfolding parse_tags str_eq
all_tags = refl

parse_peer_addrs-join_example :
    parse_peer_addrs (join "," ("a:1" ∷ " b:2" ∷ [])) ≡ some ("a:1" ∷ "b:2" ∷ [])
unfolding join keep str_eq trim_left trim_right put_before trim_space is_space
parse_peer_addrs-join_example =
    parse_peer_addrs-join "a:1" (" b:2" ∷ []) (refl, (refl, tt))
      (λ q. ground (arith, q, str_eq_iff "a:1, b:2" ""))
