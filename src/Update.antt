-- ===== src/Update.antt =====
-- core/src/server/server-context.cpp, update_slots: one round of inference over all slots. Its phases are
-- the context shift, the tokens that were sampled last, the prompts, and the decoding of the batch.
pub mod Shift
pub mod Reuse
pub mod Begin
pub mod Draft
pub mod Prompt
pub mod Round
pub mod Phases
pub mod Decode
pub mod Step
use llama_go.Base.{ℕ, Bool, List, [], ◌∷◌, ◌++◌, ℤ}
use llama_go.Tokens.{Chunk}
use llama_go.Task.{Task, TaskParams}
use llama_go.Slots.{Slot, Env}
use llama_go.Cache.{Checkpoint}
use llama_go.Generate.{GenEnv}

-- What update_slots asks of llama.cpp and of the settings. An answer may depend on all that the slot
-- holds.
pub record UpdateEnv : Type 1 where
  pub env : Env
  pub gen : GenEnv
  pub add_bos_token : Bool
  pub cont_batching : Bool
  pub n_batch : ℕ
  pub n_ubatch : ℕ
  -- llama_get_memory, and whether the context pools by the last token.
  pub has_kv : Bool
  pub pools_last : Bool
  pub can_shift : Bool
  -- llama_model_n_swa, at least 1.
  pub n_swa : ℕ
  pub n_ctx_checkpoints : ℕ
  -- The model has a memory that cannot be rolled back.
  pub keeps_checkpoints : Bool
  -- llama_memory_seq_pos_min and llama_memory_seq_pos_max
  pub pos_min : Slot → ℤ
  pub pos_max : Slot → ℤ
  -- Whether a checkpoint is restored, and the bytes of a new one.
  pub restores : Slot → Checkpoint → Bool
  pub checkpoint_size : Slot → ℕ
  -- llama_memory_seq_rm
  pub seq_rm : Slot → ℕ → Bool
  -- common_speculative_draft
  pub draft : Slot → List ℤ
  -- A new server_task of type next_response, whose parameters are llama.cpp's defaults.
  pub next_response_task : Task
  -- mtmd_helper_eval_chunk_single
  pub eval_chunk : Slot → Chunk → ℤ

-- A token of the llama_batch, as common_batch_add appends it.
pub record BatchToken : Type 0 where
  pub token : ℤ
  pub position : ℕ
  pub seq_id : ℕ
  pub logits : Bool

unfoldable pub batch_add : List BatchToken → ℤ → ℕ → ℕ → Bool → List BatchToken
batch_add batch token position seq_id logits =
    batch ++ record { token = token; position = position; seq_id = seq_id; logits = logits } ∷ []
