-- ===== src/Task.antt =====
-- core/src/server/server-task.h: a task of the server and the result of one.
-- A float (the scale of a LoRA adapter) is kept as the integer that it is in units of 2^-149, the
-- least positive float; the code only compares such values.
use llama_go.Base.{
  ℕ, ◌+◌, ◌%◌, ◌^◌, ◌==◌, Bool, true, false, not, List, [], ◌∷◌, ◌++◌, ltb, length, if◌then◌else◌,
  ℤ, ◌==ℤ◌, minus_one,
}
use llama_go.Tokens.{Tokens}

pub data TaskType : Type 0 where
  completion embedding rerank infill cancel next_response metrics : TaskType
  slot_save slot_restore slot_erase get_lora set_lora : TaskType

pub TaskType-discrete : Discrete TaskType
TaskType-discrete = hlevel

pub data StopType : Type 0 where
  stop_none stop_eos stop_word stop_limit : StopType

-- A common_adapter_lora_info: `ptr` tells adapters apart, and `invocation` is what
-- llama_adapter_get_alora_invocation_tokens gives for it.
pub record LoraInfo : Type 0 where
  pub ptr : ℕ
  pub scale : ℤ
  pub invocation : List ℤ

-- The parameters that the modelled code reads.
pub record TaskParams : Type 0 where
  pub stream : Bool
  pub cache_prompt : Bool
  pub return_tokens : Bool
  pub n_keep : ℤ
  pub n_discard : ℤ
  pub n_predict : ℤ
  pub n_indent : ℤ
  pub t_max_predict_ms : ℤ
  pub lora : List (ℕ × ℤ)
  pub antiprompt : List (List ℕ)
  pub n_probs : ℤ
  pub seed : ℕ
  pub spec_n_min : ℤ
  pub spec_n_max : ℤ
  pub n_cache_reuse : ℤ
  pub return_progress : Bool

-- slot_action: file names are byte strings.
pub record SlotAction : Type 0 where
  pub id_slot : ℤ
  pub filename : List ℕ
  pub filepath : List ℕ

-- A server_task without its child tasks.
pub record TaskInfo : Type 0 where
  pub id : ℤ
  pub index : ℕ
  pub id_target : ℤ
  pub id_slot : ℤ
  pub id_parent : ℤ
  pub type : TaskType
  pub params : TaskParams
  pub tokens : Tokens
  pub cli : Bool
  pub slot_action : SlotAction
  pub metrics_reset_bucket : Bool
  pub set_lora_map : List (ℕ × ℤ)

-- A server_task. `add_child` is the only writer of child_tasks, and a child that it makes has no
-- child tasks itself.
pub record Task : Type 0 where
  pub info : TaskInfo
  pub open info use *
  pub child_tasks : List TaskInfo

pub need_embd : TaskInfo → Bool
need_embd t = embd t.type
  where
    embd : TaskType → Bool
    embd embedding = true
    embd rerank = true
    embd _ = false

unfoldable pub samples : TaskType → Bool
samples completion = true
samples infill = true
samples _ = false

pub need_logits : TaskInfo → Bool
unfolding samples
need_logits t = samples t.type

unfoldable pub need_sampling : TaskInfo → Bool
unfolding samples
need_sampling t = samples t.type

unfoldable pub is_parent : Task → Bool
is_parent t = ltb 0 (length t.child_tasks)

unfoldable pub is_child : TaskInfo → Bool
is_child t = not (t.id_parent ==ℤ minus_one)

-- LLAMA_DEFAULT_SEED
abbrev default_seed : ℕ
default_seed = 0xFFFFFFFF

-- copy.params.sampling.seed += (uint32_t) child_tasks.size() + 1
child_seed : ℕ → ℕ → ℕ
child_seed seed n = if seed == default_seed then seed else (seed + (n + 1)) % 2 ^ 32

child_of : Task → ℤ → ℤ → TaskParams → TaskInfo
child_of t id_parent id_child p = record {
  id = id_child;
  index = 0;
  id_target = minus_one;
  id_slot = minus_one;
  id_parent = id_parent;
  type = t.type;
  params = p;
  tokens = t.tokens;
  cli = false;
  slot_action = record { id_slot = minus_one; filename = []; filepath = [] };
  metrics_reset_bucket = false;
  set_lora_map = [];
}

unfoldable pub add_child : Task → ℤ → ℤ → Task
unfolding child_seed child_of
add_child t id_parent id_child =
    let p = t.params in
    let seed = child_seed p.seed (length t.child_tasks) in
    record t {
      child_tasks = t.child_tasks ++ child_of t id_parent id_child (record p { seed = seed }) ∷ [];
    }

pub child_ids : List TaskInfo → List ℤ
child_ids [] = []
child_ids (c ∷ cs) = c.id ∷ child_ids cs

-- get_list_id. The source collects a set; with distinct ids this list holds each once.
unfoldable pub get_list_id : List Task → List ℤ
unfolding child_ids
get_list_id [] = []
get_list_id (t ∷ ts) = t.id ∷ (child_ids t.child_tasks ++ get_list_id ts)

pub data ErrorType : Type 0 where
  invalid_request authentication server not_found permission unavailable not_supported : ErrorType
  exceed_context_size : ErrorType

-- What the subclasses of server_task_result carry, as far as the modelled code writes it.
pub data Payload : Type 0 where
  cmpl_partial : List ℕ → Payload
  cmpl_final : List ℕ → Payload
  embd : Payload
  rerank_score : Payload
  error_result : ErrorType → Payload
  metrics_result : (n_idle n_processing n_deferred : ℕ) → Payload
  slot_save_load : (is_save : Bool) (n_tokens n_bytes : ℕ) → Payload
  slot_erased : (n_erased : ℕ) → Payload
  lora_list : List LoraInfo → Payload
  lora_applied : Payload

pub record TaskResult : Type 0 where
  pub id : ℤ
  pub id_slot : ℤ
  pub index : ℕ
  pub payload : Payload

payload_is_error : Payload → Bool
payload_is_error (error_result e) = true
payload_is_error _ = false

payload_is_stop : Payload → Bool
payload_is_stop (cmpl_partial c) = false
payload_is_stop _ = true

unfoldable pub is_error : TaskResult → Bool
unfolding payload_is_error
is_error r = payload_is_error r.payload

unfoldable pub is_stop : TaskResult → Bool
unfolding payload_is_stop
is_stop r = payload_is_stop r.payload
