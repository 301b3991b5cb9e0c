-- ===== src/Update/Step.antt =====
-- core/src/server/server-context.cpp, update_slots: a whole round over the slots.
pub mod Paired
use llama_go.Base.{
  ℕ, Bool, true, false, Option, none, some, List, [], ◌∷◌, if◌then◌else◌, ℤ, minus_one, Result, ok,
  err, out_of_fuel, ◌>>=◌,
}
use llama_go.Queue.{Queue, get_new_id, post}
use llama_go.Slots.{Slot, Server, is_processing}
use llama_go.Update.{UpdateEnv}
use llama_go.Update.Round.{Round}
use llama_go.Update.Phases.{build_batch}
use llama_go.Update.Decode.{Decoder, decode_batch}

unfoldable pub all_idle : List Slot → Bool
all_idle [] = true
all_idle (slot ∷ slots) = if is_processing slot then false else all_idle slots

-- The task that makes the main loop call update_slots again.
unfoldable pub post_next_response : UpdateEnv → ℕ → Queue → Result (Queue × ℤ)
post_next_response env now q =
    let (q1, id) = get_new_id q in
    let task = env.next_response_task in
    let info = task.info in post q1 (record task { info = record info { id = id } }) false now

unfoldable pub new_round : Server → Round
new_round s = record {
  server = s;
  batch = [];
  slot_batched = none;
  alora_scale = minus_one;
  alora_disabled_id = 0;
  full = false;
}

unfoldable pub decode_result : Option (Result Round) → Result Server
decode_result none = err out_of_fuel
decode_result (some result) = result >>= λ r. ok r.server

unfoldable pub update_slots : UpdateEnv → Decoder → ℕ → Server → Result Server
unfolding all_idle post_next_response new_round decode_result
update_slots env d now s =
    if all_idle s.slots
    then ok s
    else (post_next_response env now s.queue_tasks >>= λ (q, id).
        build_batch env now (new_round (record s { queue_tasks = q })) >>= λ r.
        decode_result (decode_batch env d now r))
