-- ===== src/Gossip/Tests.antt =====
-- The window of seen messages at concrete inputs.
use dwcs.Base.{String, false, none, [], ◌∷◌, ◌≡◌, refl, arith, Bytes}
use dwcs.GoMap.{lookup}
use dwcs.Protocol.{Envelope}
use dwcs.Gossip.{new_gossip, should_forward}
use dwcs.Gossip.Window.{offers, collects, run, should_forward_once}

abbrev pub no_text : Bytes → String
no_text b = ""

abbrev pub hello : Envelope
hello = record { msg_type = "world_update"; request_id = "m1"; payload = none }

abbrev pub other : Envelope
other = record { msg_type = "world_update"; request_id = ""; payload = none }

should_forward_once_example :
    (should_forward no_text hello 90 (
      run no_text
        (should_forward no_text hello 5 new_gossip).1
        (offers other 7 ∷ collects 60 ∷ []))).0
    ≡ false
unfolding should_forward new_gossip lookup
should_forward_once_example =
    should_forward_once no_text new_gossip hello hello 5 90 (offers other 7 ∷ collects 60 ∷ []) refl
      refl (tt, (omega arith, tt))
