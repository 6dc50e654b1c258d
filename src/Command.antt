-- ===== src/Command.antt =====
-- cmd/peer/main.go: what the command line of a peer means, and what the peer submits of itself. The
-- parts of strings.Split and strings.TrimSpace that it uses are written out on texts; encoding/json on
-- a map[string]int is the pair of parameters `unmarshal_ints` and `marshal_ints`.
pub mod Parts
pub mod Tests
use dwcs.Base.{
  ℕ, suc, String, Bool, true, false, not, ◌&&◌, ◌||◌, none, some, List, [], ◌∷◌, Result, ok, err,
  Slice, Bytes, str_eq, if◌then◌else◌, leb, ◌==◌, keep, map, Option,
}
use Prim.Native.Char.{Char, code}
use Prim.Native.String.{[] as no_text, ◌∷◌ as then_text}
use dwcs.Protocol.{Codec, SubmitResultPayload, submit_result, msg_submit_result, encoded}
use dwcs.World.{UpdateRequest}
use dwcs.Merge.{Submission, Decision, MergeFunc}
use dwcs.Peering.{PeeringManager}
use dwcs.Peer.{Node, submit_local_result}

-- The separator of the lists, as a character code.
abbrev pub comma : ℕ
comma = 44

-- unicode.IsSpace
unfoldable pub is_space : ℕ → Bool
is_space n =
    ((leb 9 n && leb n 13)
      || ((n == 32)
          || ((n == 133)
              || ((n == 160)
                  || ((n == 5760)
                      || ((leb 8192 n && leb n 8202)
                          || ((n == 8232)
                              || ((n == 8233)
                                  || ((n == 8239) || ((n == 8287) || (n == 12288)))))))))))

unfoldable pub put_first : Char → List String → List String
put_first c [] = then_text c no_text ∷ []
put_first c (p ∷ ps) = then_text c p ∷ ps

-- strings.Split(s, ","), of which a text without a comma is the one part.
unfoldable pub split : String → List String
unfolding put_first
split no_text = no_text ∷ []
split (then_text c s) =
    let rest = split s in if code c == comma then no_text ∷ rest else put_first c rest

unfoldable pub trim_left : String → String
trim_left no_text = no_text
trim_left (then_text c s) =
    let rest = trim_left s in if is_space (code c) then rest else then_text c s

unfoldable pub put_before : Char → String → String
put_before c no_text = if is_space (code c) then no_text else then_text c no_text
put_before c (then_text d s) = then_text c (then_text d s)

unfoldable pub trim_right : String → String
unfolding put_before
trim_right no_text = no_text
trim_right (then_text c s) = put_before c (trim_right s)

unfoldable pub trim_space : String → String
unfolding trim_left trim_right
trim_space s = trim_right (trim_left s)

unfoldable pub is_filled : String → Bool
is_filled s = not (str_eq s "")

-- The loop of both functions.
unfoldable pub filled_parts : List String → List String
unfolding trim_space is_filled
filled_parts [] = []
filled_parts (p ∷ ps) =
    let rest = filled_parts ps in if is_filled (trim_space p) then trim_space p ∷ rest else rest

unfoldable pub parse_tags : String → Slice String
unfolding filled_parts split
parse_tags s =
    if str_eq s "" || str_eq s "*" then some ("*" ∷ []) else some (filled_parts (split s))

unfoldable pub parse_peer_addrs : String → Slice String
unfolding filled_parts split
parse_peer_addrs s = if str_eq s "" then none else some (filled_parts (split s))

-- case "tcp", "udp", "both"
unfoldable pub is_transport : String → Bool
is_transport kind = str_eq kind "tcp" || (str_eq kind "udp" || str_eq kind "both")

module _ {M : Type 0} (unmarshal_ints : Bytes → Result String M) (marshal_ints : M → Bytes) where
  -- mergeFunc
  unfoldable pub peer_merge_func : MergeFunc
  peer_merge_func sub = elim (unmarshal_ints sub.payload) [
    | err e ↦ record { accept = false; reason = e; updates = [] }
    | ok p ↦ record {
      accept = true;
      reason = "";
      updates =
          record {
            object_id = sub.task_id;
            payload = marshal_ints p;
            expected_version = 0;
            tags = some ("test" ∷ []);
            meta = none;
          }
          ∷ [];
    }
  ]

module _ {N : Type 0} (mgr : PeeringManager N) (c : Codec) where
  -- One tick of the work loop, with the text of the result.
  unfoldable pub work : String → Bytes → (ℕ → ℕ) → Node N → Node N
  work object_id payload clock n =
      let msg =
        encoded c msg_submit_result ""
          (some (submit_result (record { task_id = object_id; payload = payload; meta = none }))) in
      submit_local_result mgr c object_id payload clock
        (record n { reach = record n.reach { network = mgr.broadcast msg n.reach.network } })
