-- ===== src/Protocol/Encoding.antt =====
-- Encode and EncodeEnv.
use dwcs.Base.{String, Option, ◌≡◌, arith, Result, ok, err, Bytes}
use dwcs.Protocol.{Codec, Envelope, Payload, encode_env, encode}

abbrev pub marshalled : Codec → Result String Envelope → Result String Bytes
marshalled c (err e) = err e
marshalled c (ok env) = c.marshal_envelope env

-- Encode sends just the envelope that EncodeEnv builds: it fails where EncodeEnv fails, with the
-- same error, and else marshals that envelope, which carries the type and the request id given.
pub encode-encode_env :
    (c : Codec) (msg_type request_id : String) (payload : Option Payload)
    → (encode c msg_type request_id payload
        ≡ marshalled c (encode_env c msg_type request_id payload))
      × ((env : Envelope)
          → encode_env c msg_type request_id payload ≡ ok env
          → (env.msg_type ≡ msg_type) × (env.request_id ≡ request_id))
unfolding encode encode_env
encode-encode_env c msg_type request_id payload =
    (ground arith, λ env e. (ground arith, ground arith))
