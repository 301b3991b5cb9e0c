-- ===== src/Examples.antt =====
-- Concrete tasks, queues, prompts and slots, on which the theorems are used. It models no file of the
-- repository.
mod Prompts
mod Queues
mod Serving
mod Rounds
mod Readers
use llama_go.Base.{ℕ, Bool, true, false, none, List, [], ◌∷◌, ℤ, pos, minus_one}
use llama_go.Floats.{thousandths}
use llama_go.Tokens.{Tokens}
use llama_go.Task.{TaskType, completion, cancel, TaskParams, TaskInfo, Task, stop_none}
use llama_go.Queue.{Queue}
use llama_go.Queue
use llama_go.Response
use llama_go.Cache.{Prompt}
use llama_go.Slots.{Slot, Env, Server, idle}

abbrev pub params : TaskParams
params = record {
  stream = true;
  cache_prompt = true;
  return_tokens = false;
  n_keep = pos 0;
  n_discard = pos 0;
  n_predict = pos 2;
  n_indent = pos 0;
  t_max_predict_ms = pos 0;
  lora = [];
  antiprompt = [];
  n_probs = pos 0;
  seed = 0;
  spec_n_min = pos 0;
  spec_n_max = pos 0;
  n_cache_reuse = pos 0;
  return_progress = false;
}

abbrev pub text : List ℤ → Tokens
text ts = record { has_mtmd = false; map_idx_to_media = []; tokens = ts }

-- A task with an id, a type, a target, a slot and a parent.
abbrev pub info : ℤ → TaskType → ℤ → ℤ → ℤ → TaskInfo
info i type target id_slot id_parent = record {
  id = i;
  index = 0;
  id_target = target;
  id_slot = id_slot;
  id_parent = id_parent;
  type = type;
  params = params;
  tokens = text (pos 1 ∷ []);
  cli = false;
  slot_action = record { id_slot = minus_one; filename = []; filepath = [] };
  metrics_reset_bucket = false;
  set_lora_map = [];
}

abbrev pub task : ℤ → ℤ → Task
task i id_slot = record { info = info i completion minus_one id_slot minus_one; child_tasks = [] }

abbrev pub cancel_task : ℤ → ℤ → Task
cancel_task i target = record { info = info i cancel target minus_one minus_one; child_tasks = [] }

-- A queue whose counter stands at n, with deferred tasks.
abbrev pub queue : ℕ → List Task → List Task → Queue
queue n ts ds = record {
  id = n;
  running = true;
  sleeping = false;
  req_stop_sleeping = false;
  time_last_task = 0;
  queue_tasks = ts;
  queue_tasks_deferred = ds;
}

abbrev pub prompt : List ℤ → Prompt
prompt ts = record { tokens = text ts; data_size = 0; checkpoints = [] }

abbrev pub slot : ℕ → Slot
slot id = record {
  id = id;
  task = none;
  t_last_used = minus_one;
  n_ctx = 8;
  n_decoded = 2;
  n_remaining = minus_one;
  n_prompt_tokens_cache = 0;
  last_nl_pos = 0;
  generated_text = [];
  generated_tokens = [];
  has_next_token = true;
  has_new_line = false;
  truncated = false;
  stop = stop_none;
  stopping_word = [];
  state = idle;
  prompt = prompt [];
  lora = [];
  alora_invocation_start = minus_one;
  has_sampler = false;
  sampled = pos 0;
  drafted = [];
  n_sent_text = 0;
  n_draft_total = 0;
  n_draft_accepted = 0;
  i_batch = minus_one;
  i_batch_dft = [];
  n_prompt_tokens_processed = 0;
  has_spec = false;
}

-- A vocabulary of ten tokens, and samplers that are always made or never.
abbrev pub env : Bool → Env
env makes = record {
  floats = thousandths;
  similarity = 0;
  kv_unified = false;
  has_mctx = false;
  n_vocab = 10;
  sampler_init = λ p. makes;
  state_size = λ s. 1;
  has_memory = λ n. true;
  restored = λ p. 0;
  tokenize = λ t. none;
  save_file = λ path s. 0;
  load_file = λ path s. (0, []);
}

abbrev pub server : Server
server = record {
  slots = slot 0 ∷ slot 1 ∷ [];
  queue_tasks = queue 9 [] [];
  queue_results = llama_go.Response.initial;
  lora_adapters = [];
  prompt_cache = none;
}
