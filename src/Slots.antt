-- ===== src/Slots.antt =====
-- core/src/server/server-context.cpp, server_slot and the part of server_context_impl that assigns
-- slots to tasks: the slots, the queues they serve and the prompt cache. A slot pointer is the place of
-- the slot in the list. llama.cpp's context and samplers are not under the repository's sources: what
-- the code asks of them is an Env.
pub mod Select
pub mod Launch
pub mod Tasks
pub mod Release
pub mod Choice
pub mod Similarity
pub mod Chosen
pub mod Paired
pub mod Preserved
pub mod Whole
pub mod Outcome
use llama_go.Base.{
  ℕ, zero, suc, ◌+◌, ◌-◌, ◌≡◌, Bool, true, false, not, ◌&&◌, ◌||◌, Option, none, some, List, [],
  ◌∷◌, ◌==◌, if◌then◌else◌, length, get_elem?, set, ℤ, pos, negsuc, minus_one, ◌==ℤ◌, Result, ok,
  err, assert_failed, ◌>>=◌,
}
use llama_go.Floats.{Floats}
use llama_go.Tokens.{Tokens, InputChunk, clear}
use llama_go.Task.{
  Task, TaskInfo, TaskParams, LoraInfo, StopType, stop_none, is_child, TaskResult, Payload,
  ErrorType, error_result,
}
use llama_go.Queue.{Queue, pop_deferred_task}
use llama_go.Response.{Response, send}
use llama_go.Cache.{Prompt, Cache}

pub data SlotState : Type 0 where
  idle wait_other started processing_prompt done_prompt generating : SlotState

pub record Slot : Type 0 where
  pub id : ℕ
  pub task : Option Task
  pub t_last_used : ℤ
  pub n_ctx : ℕ
  pub n_decoded : ℕ
  pub n_remaining : ℤ
  pub n_prompt_tokens_cache : ℕ
  pub last_nl_pos : ℕ
  pub generated_text : List ℕ
  pub generated_tokens : List ℤ
  pub has_next_token : Bool
  pub has_new_line : Bool
  pub truncated : Bool
  pub stop : StopType
  pub stopping_word : List ℕ
  pub state : SlotState
  pub prompt : Prompt
  pub lora : List LoraInfo
  pub alora_invocation_start : ℤ
  pub has_sampler : Bool
  pub sampled : ℤ
  pub drafted : List ℤ
  pub n_sent_text : ℕ
  pub n_draft_total : ℕ
  pub n_draft_accepted : ℕ
  pub i_batch : ℤ
  pub i_batch_dft : List ℕ
  pub n_prompt_tokens_processed : ℕ
  pub has_spec : Bool

unfoldable pub is_idle : SlotState → Bool
is_idle idle = true
is_idle _ = false

unfoldable pub is_processing : Slot → Bool
unfolding is_idle
is_processing slot = not (is_idle slot.state)

-- server_slot::reset. task_prev, which is only printed, is left out.
unfoldable pub reset : Slot → Slot
reset slot = record slot {
  n_prompt_tokens_cache = 0;
  last_nl_pos = 0;
  generated_text = [];
  has_new_line = false;
  truncated = false;
  stop = stop_none;
  stopping_word = [];
  n_sent_text = 0;
  drafted = [];
  i_batch_dft = [];
  generated_tokens = [];
  n_draft_total = 0;
  n_draft_accepted = 0;
  task = none;
  alora_invocation_start = minus_one;
}

-- prompt_clear: what it does to the prompt.
unfoldable pub clear_prompt : Slot → Slot
clear_prompt slot =
    let p = slot.prompt in record slot { prompt = record p { tokens = clear p.tokens } }

unfoldable pub prompt_clear : Slot → Bool → Result Slot
unfolding clear_prompt
prompt_clear slot allow_processing =
    if not allow_processing && is_processing slot then err assert_failed else ok (clear_prompt slot)

-- What the code asks of llama.cpp and of the settings, which do not change while the server runs.
pub record Env : Type 1 where
  pub floats : Floats
  -- slot_prompt_similarity
  pub similarity : floats.Float
  pub kv_unified : Bool
  pub has_mctx : Bool
  pub n_vocab : ℕ
  -- Whether common_sampler_init makes a sampler.
  pub sampler_init : TaskParams → Bool
  -- llama_state_seq_get_size_ext
  pub state_size : Slot → ℕ
  -- Whether there is memory for a state of this size.
  pub has_memory : ℕ → Bool
  -- The bytes that llama_state_seq_set_data_ext takes from a state.
  pub restored : Prompt → ℕ
  -- tokenize_input_prompts and process_mtmd_prompt on the input of a task of the command line.
  pub tokenize : TaskInfo → Option Tokens
  -- The bytes that llama_state_seq_save_file writes.
  pub save_file : List ℕ → Slot → ℕ
  -- The bytes that llama_state_seq_load_file reads, and the tokens.
  pub load_file : List ℕ → Slot → ℕ × List ℤ

pub record Server : Type 0 where
  pub slots : List Slot
  pub queue_tasks : Queue
  pub queue_results : Response
  pub lora_adapters : List LoraInfo
  pub prompt_cache : Option Cache

unfoldable pub result_for : TaskInfo → ℤ → Payload → TaskResult
result_for t id_slot payload = record { id = t.id; id_slot = id_slot; index = 0; payload = payload }

unfoldable pub send_result : Server → TaskResult → Server
send_result s r = record s { queue_results = send s.queue_results r }

unfoldable pub send_error : Server → TaskInfo → ErrorType → Server
unfolding result_for send_result
send_error s t e = send_result s (result_for t minus_one (error_result e))

-- What release does to a slot that has the task.
unfoldable pub released : ℕ → Slot → Task → Slot
unfolding reset clear_prompt
released now slot task =
    let idle_slot = record slot { state = idle; t_last_used = pos now } in
    reset (if is_child task.info then clear_prompt idle_slot else idle_slot)

-- server_slot::release with the callback that the server gives it, which takes up a deferred task.
unfoldable pub release : ℕ → Queue → Slot → Result (Queue × Slot)
unfolding released
release now q slot =
    if is_processing slot
    then elim slot.task [
      | none ↦ err assert_failed
      | some task ↦ ok (pop_deferred_task q (pos slot.id) now, released now slot task)
    ]
    else ok (q, slot)
