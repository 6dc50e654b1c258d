-- ===== src/Protocol/Tests.antt =====
-- A codec to test with, and encoding at a concrete input.
use dwcs.Base.{none, some, [], ◌∷◌, ok}
use dwcs.Protocol.{Codec}

-- Every payload and envelope has one text, and every text reads as the same payload.
abbrev pub fixed_codec : Codec
fixed_codec = record {
  marshal = λ p. ok (some (1 ∷ []));
  marshal_envelope = λ env. ok (some (2 ∷ []));
  unmarshal_envelope =
      λ b. ok (record { msg_type = "submit_result"; request_id = "r"; payload = b });
  acquire_task = λ b. ok (record { task_id = "t" });
  release_task = λ b. ok (record { task_id = "t" });
  submit_result = λ b. ok (record { task_id = "t"; payload = b; meta = none });
  subscribe = λ b. ok (record { tags = some ("x" ∷ []) });
  world_update = λ b. ok (record {
    objects = record { object_id = "door"; payload = b; version = 9; meta = none } ∷ [];
  });
}
