-- ===== src/Examples/Serving.antt =====
-- The theorems on slots and on generated tokens, used on concrete data. It models no file of the
-- repository.
use llama_go.Base.{
  ℕ, ◌<◌, ◌≡◌, refl, true, false, ◌⊎◌, none, some, [], ◌∷◌, ◌++◌, any, All, ltb, pos, minus_one,
  ◌==ℤ◌, ok, arith,
}
use llama_go.Task.{Task, completion, is_child, is_parent, need_sampling, samples}
use llama_go.Slots.{
  Server, started, is_processing, is_idle, reset, released, release, send_error, send_result,
}
use llama_go.Slots.Select.{find_slot, wrap_id, get_slot_by_id}
use llama_go.Slots.Launch.{
  belongs_to, busy_at, launch_children, launch_slot_with_task, child_task, launch_slot,
  set_request_lora, set_alora, check_tokens, start_slot, finish_launch, release_slots,
  release_family, launch_slots_with_parent_task,
}
use llama_go.Lora.{lora_all_alora, all_alora_from}
use llama_go.Tokens.{validate, validate_from, in_vocab}
use llama_go.Queue.{pop_deferred_task, pop_first, defer}
use llama_go.Response.{send, contains}
use llama_go.Slots.Tasks.{
  release_task, slot_for, start_at, defer_task, has_task_id, tokenized, process_inference,
  process_cancel, process_single_task,
}
use llama_go.Slots.Paired.{AllPaired, has_task}
use llama_go.Slots.Whole.{process_single_task-AllPaired}
use llama_go.Slots.Outcome.{Outcome, process_inference-Outcome}
use llama_go.Slots.Release.{AtMostOne, NoFamily, launch_slots-all_or_none, process_cancel-gone}
use llama_go.Generate.{is_positive, GenEnv, has_budget, validate_utf8, process_token}
use llama_go.Generate.Sent.{IsSent, sent_by, process_token-IsSent}
use llama_go.Generate.Reason.{HasReason, process_token-HasReason}
use llama_go.Generate.Budget.{has_budget_iff, process_token-over}
use llama_go.Generate.Utf8.{IsCutAt, validate_utf8-cases}
use llama_go.Examples.{params, info, task, cancel_task, slot, env, server}

server-AllPaired : AllPaired server
unfolding is_processing has_task
server-AllPaired = (refl, (refl, tt))

-- The server while slot 1 has a task.
abbrev busy : Server
busy =
    let s = slot 1 in
    record server {
      slots = slot 0 ∷ record s { task = some (task (pos 3) (pos 1)); state = started } ∷ [];
    }

busy-AllPaired : AllPaired busy
unfolding is_processing is_idle has_task
busy-AllPaired = (refl, (refl, tt))

-- The server after the task was cancelled.
abbrev cancelled : Server
cancelled =
    let s = slot 1 in
    let q = server.queue_tasks in
    record server {
      slots = slot 0 ∷ record s { t_last_used = pos 7 } ∷ [];
      queue_tasks = record q { time_last_task = 7 };
    }

cancelling : process_single_task (env true) 7 busy (cancel_task (pos 5) (pos 3)) ≡ ok cancelled
unfolding process_single_task process_cancel release_task has_task_id release released reset
    is_processing is_idle pop_deferred_task pop_first is_child ◌==ℤ◌
cancelling = refl

process_single_task-AllPaired_example : AllPaired cancelled
process_single_task-AllPaired_example =
    process_single_task-AllPaired (env true) 7 busy cancelled (cancel_task (pos 5) (pos 3))
      busy-AllPaired cancelling

-- The server after another task asked for slot 1.
abbrev waited : Server
waited =
    let q = busy.queue_tasks in
    record busy {
      queue_tasks = record q {
        queue_tasks_deferred = task (pos 4) (pos 1) ∷ [];
        time_last_task = 7;
      };
    }

waiting : process_inference (env true) 7 busy (task (pos 4) (pos 1)) ≡ ok waited
unfolding process_inference tokenized slot_for get_slot_by_id wrap_id find_slot start_at
    is_processing is_idle defer_task defer ◌==ℤ◌
waiting = refl

not_parent : is_parent (task (pos 4) (pos 1)) ≡ false
unfolding is_parent
not_parent = refl

has_tokens : tokenized (env true) (task (pos 4) (pos 1)) ≡ some (task (pos 4) (pos 1))
unfolding tokenized
has_tokens = refl

process_inference-Outcome_example : Outcome busy waited (task (pos 4) (pos 1))
process_inference-Outcome_example =
    process_inference-Outcome (env true) 7 busy waited (task (pos 4) (pos 1)) (task (pos 4) (pos 1))
      has_tokens not_parent waiting

-- A task with one child.
abbrev family : Task
family =
    let t = task (pos 3) minus_one in
    record t { child_tasks = info (pos 4) completion minus_one minus_one (pos 3) ∷ [] }

-- No sampler can be made, so the child is refused.
refusing : launch_slots_with_parent_task (env false) 7 server 0 (1 ∷ []) family ≡ ok (server, false)
unfolding launch_slots_with_parent_task busy_at is_processing is_idle is_parent launch_children
    launch_slot_with_task child_task launch_slot set_request_lora set_alora lora_all_alora
    all_alora_from check_tokens validate validate_from in_vocab start_slot need_sampling samples
    finish_launch send_error send_result send contains any release_slots release_family belongs_to
    ◌==ℤ◌
refusing = refl

launch_slots-all_or_none_example : NoFamily (pos 3) server
launch_slots-all_or_none_example =
    launch_slots-all_or_none (env false) 7 server server 0 (1 ∷ []) family server-AllPaired refusing

once : AtMostOne (pos 3) busy.slots
unfolding has_task_id ◌==ℤ◌
once = ((λ e. cc), ((λ e. tt), tt))

process_cancel-gone_example :
    (s' : Server) × (process_cancel 7 busy (pos 3) ≡ ok s')
    × All (λ s. has_task_id (pos 3) s.task ≡ false) s'.slots
process_cancel-gone_example = process_cancel-gone 7 busy (pos 3) busy-AllPaired once

abbrev gen_env : GenEnv
gen_env = record {
  is_eog = λ t. false;
  partial_stop = λ t w. none;
  ctx_shift = true;
  n_predict = minus_one;
  time_over = λ t. false;
}

not_limited : is_positive (pos 0) ≡ false
unfolding is_positive
not_limited = refl

process_token-IsSent_example :
    let r = process_token gen_env params (slot 0) (pos 1) (104 ∷ 105 ∷ []) in
    IsSent r.0 ([] ++ sent_by r.1)
process_token-IsSent_example =
    process_token-IsSent gen_env params (slot 0) (pos 1) (104 ∷ 105 ∷ []) [] refl not_limited
      (record { within = omega arith; same = refl })

process_token-HasReason_example :
    HasReason (process_token gen_env params (slot 0) (pos 1) (104 ∷ 105 ∷ [])).0
process_token-HasReason_example =
    process_token-HasReason gen_env params (slot 0) (pos 1) (104 ∷ 105 ∷ [])

has_budget_iff_example : (has_budget gen_env params (slot 0)).1 ≡ ltb 2 2
has_budget_iff_example = has_budget_iff gen_env params (slot 0) 2 refl

process_token-over_example :
    (process_token gen_env params (slot 0) (pos 1) (104 ∷ 105 ∷ [])).0.has_next_token ≡ false
process_token-over_example =
    process_token-over gen_env params (slot 0) (pos 1) (104 ∷ 105 ∷ []) 2 refl (omega arith)
      (omega arith)

-- The first byte of a character of two bytes, behind an ASCII character.
validate_utf8-cases_example :
    ((validate_utf8 (104 ∷ 0xC3 ∷ []) ≡ 2) × ¬ ((p : ℕ) × IsCutAt (104 ∷ 0xC3 ∷ []) p))
    ⊎ (IsCutAt (104 ∷ 0xC3 ∷ []) (validate_utf8 (104 ∷ 0xC3 ∷ []))
        × ¬ ((p : ℕ) × (validate_utf8 (104 ∷ 0xC3 ∷ []) < p) × IsCutAt (104 ∷ 0xC3 ∷ []) p))
validate_utf8-cases_example = validate_utf8-cases (104 ∷ 0xC3 ∷ [])
