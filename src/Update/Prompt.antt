-- ===== src/Update/Prompt.antt =====
-- core/src/server/server-context.cpp, update_slots: a slot with a prompt to process adds as much of it as fits
-- to the batch. core/src/server/server-common.cpp, process_chunk, decodes a media chunk at once.
pub mod Filled
pub mod Added
use llama_go.Base.{
  ℕ, zero, suc, ◌+◌, ◌-◌, min, Bool, true, false, not, ◌&&◌, ◌||◌, Option, none, some, List, [],
  ◌∷◌, ◌++◌, ltb, leb, ◌==◌, if◌then◌else◌, length, get_elem?, set, drop, ℤ, pos, negsuc, ◌==ℤ◌,
  Result, ok, err, assert_failed, ◌>>=◌,
}
use llama_go.Tokens.{Chunk, image, null_token, find_chunk, pos_next, push_chunk}
use llama_go.Task.{Task, LoraInfo, TaskType, completion, need_embd}
use llama_go.Lora.{lora_all_alora, lora_get_enabled_ids}
use llama_go.Generate.{sub_int, is_positive}
use llama_go.Cache.{Checkpoint}
use llama_go.Slots.{Slot, done_prompt, clear_prompt}
use llama_go.Slots.Select.{le_time}
use llama_go.Update.{UpdateEnv, BatchToken}
use llama_go.Update.Begin.{can_split, with_tokens}
use llama_go.Update.Draft.{add_token}

-- A slot and the batch, with the adapter that was disabled for the batch: a scale that is not positive
-- stands for none.
pub record Filling : Type 0 where
  pub slot : Slot
  pub batch : List BatchToken
  pub alora_scale : ℤ
  pub alora_disabled_id : ℕ

-- The prompt waits for the next batch, its media failed, or it was added.
pub data Continued : Type 0 where
  waits : Continued
  media_failed : Slot → Continued
  continued : Filling → Continued

-- llama_memory_seq_rm from the next position on, which may fail.
unfoldable pub truncate_memory : UpdateEnv → Slot → Slot
truncate_memory env slot =
    if env.seq_rm slot (pos_next slot.prompt.tokens)
    then slot
    else record (clear_prompt slot) { n_prompt_tokens_cache = 0 }

-- server_tokens::process_chunk: the number of tokens, if it succeeds.
unfoldable pub process_chunk : UpdateEnv → Slot → Task → ℕ → Result (Option Chunk)
process_chunk env slot task idx = find_chunk task.tokens idx >>= λ c.
    ok (if env.eval_chunk slot c ==ℤ pos 0 then some c else none)

unfoldable pub starts_media : Option ℤ → Bool
starts_media none = false
starts_media (some x) = x ==ℤ null_token

unfoldable pub add_media : Slot → Option Chunk → Result (Slot × Bool)
add_media slot none = ok (slot, false)
add_media slot (some c) = push_chunk slot.prompt.tokens (image c) >>= λ ts. ok (
  record (with_tokens slot ts) {
    n_prompt_tokens_processed = slot.n_prompt_tokens_processed + c.n_tokens;
  },
  true,
)

-- A media chunk that comes next is decoded; the Boolean is false if that fails.
unfoldable pub process_media : UpdateEnv → Slot → Task → Result (Slot × Bool)
unfolding process_chunk starts_media add_media
process_media env slot task =
    let p = slot.prompt in
    let n_tokens = length p.tokens.tokens in
    if starts_media (get_elem? task.tokens.tokens n_tokens)
    then (process_chunk env slot task n_tokens >>= add_media slot)
    else ok (slot, true)

unfoldable pub disable_adapter : Slot → List BatchToken → List ℕ → Result Filling
disable_adapter slot batch [] = err assert_failed
disable_adapter slot batch (id ∷ _ ∷ _) = err assert_failed
disable_adapter slot batch (id ∷ []) = elim (get_elem? slot.lora id) [
  | none ↦ err assert_failed
  | some l ↦ ok (record {
    slot = record slot { lora = set slot.lora id (record l { scale = pos 0 }) };
    batch = batch;
    alora_scale = l.scale;
    alora_disabled_id = id;
  })
]

-- Tokens before the invocation of an aLoRA are decoded without it.
unfoldable pub disable_alora : Filling → Result Filling
unfolding disable_adapter
disable_alora f =
    let slot = f.slot in
    let p = slot.prompt in
    if lora_all_alora slot.lora
      && le_time (pos (length p.tokens.tokens + 1)) (sub_int slot.alora_invocation_start 1)
    then disable_adapter slot f.batch (lora_get_enabled_ids slot.lora)
    else ok f

unfoldable pub at_invocation : Slot → ℤ → Bool
at_invocation slot alora_scale =
    let p = slot.prompt in
    is_positive alora_scale
    && (pos (length p.tokens.tokens) ==ℤ sub_int slot.alora_invocation_start 1)

-- The last tokens are processed separately if there is to be a checkpoint.
unfoldable pub before_last : UpdateEnv → Slot → Task → Bool → Bool
before_last env slot task do_checkpoint =
    let p = slot.prompt in
    do_checkpoint && length task.tokens.tokens == length p.tokens.tokens + min env.n_batch 512

-- The loop over the tokens of the prompt that are left.
unfoldable pub fill :
    UpdateEnv → Task → Bool → ℤ → List ℤ → Slot × List BatchToken → Result (Slot × List BatchToken)
unfolding at_invocation before_last
fill env task do_checkpoint alora_scale [] (slot, batch) = ok (slot, batch)
fill env task do_checkpoint alora_scale (cur_tok ∷ rest) (slot, batch) =
    let go = fill env task do_checkpoint alora_scale rest in
    if not (ltb (length batch) env.n_batch)
      || (cur_tok ==ℤ null_token)
      || at_invocation slot alora_scale
    then ok (slot, batch)
    else (add_token slot batch cur_tok (need_embd task.info) >>= λ (slot1, batch1).
        let slot2 = record slot1 {
          n_prompt_tokens_processed = slot1.n_prompt_tokens_processed + 1;
        } in
        if before_last env slot2 task do_checkpoint then ok (slot2, batch1) else go (slot2, batch1))

is_completion : TaskType → Bool
is_completion completion = true
is_completion _ = false

unfoldable pub makes_checkpoints : UpdateEnv → Task → Bool
unfolding is_completion
makes_checkpoints env task =
    ltb 0 env.n_ctx_checkpoints && is_completion task.type && env.keeps_checkpoints

-- batch.logits[i] = true
unfoldable pub ask_logits : List BatchToken → ℕ → List BatchToken
ask_logits batch i = elim (get_elem? batch i) [
  | none ↦ batch
  | some b ↦ set batch i (record b { logits = true })
]

-- Old checkpoints make room for one more.
trim_checkpoints : List Checkpoint → ℕ → List Checkpoint
trim_checkpoints cs n_ctx_checkpoints = drop (suc (length cs) - n_ctx_checkpoints) cs

last_of : List Checkpoint → Option Checkpoint
last_of [] = none
last_of (c ∷ []) = some c
last_of (c ∷ d ∷ cs) = last_of (d ∷ cs)

-- The checkpoint is neither small nor close to the last one.
is_useful : ℕ → Option Checkpoint → Bool
is_useful pos_max none = leb 64 pos_max
is_useful pos_max (some c) = leb 64 pos_max && ltb (c.pos_max + 64) pos_max

unfoldable pub make_checkpoint : UpdateEnv → Slot → ℤ → ℤ → Slot
unfolding trim_checkpoints last_of is_useful
make_checkpoint env slot (pos lo) (pos hi) =
    let p = slot.prompt in
    let c : Checkpoint = record {
      pos_min = lo;
      pos_max = hi;
      data_size = env.checkpoint_size slot;
    } in
    if is_useful hi (last_of p.checkpoints)
    then record slot {
      prompt = record p {
        checkpoints = trim_checkpoints p.checkpoints env.n_ctx_checkpoints ++ c ∷ [];
      };
    }
    else slot
make_checkpoint env slot _ _ = slot

-- The slot when its whole prompt was added; the sampler is made anew from the prompt, which leaves no
-- trace here.
unfoldable pub finish_prompt :
    UpdateEnv → Task → Bool → Slot × List BatchToken → Result (Slot × List BatchToken)
unfolding make_checkpoint ask_logits
finish_prompt env task do_checkpoint (slot, batch) =
    let p = slot.prompt in
    let last = length batch - 1 in
    let slot1 = record slot { state = done_prompt; n_decoded = 0; i_batch = pos last } in
    if not (length p.tokens.tokens == length task.tokens.tokens)
    then ok (slot, batch)
    else (if length batch == 0
        then err assert_failed
        else ok (
          if do_checkpoint
              then make_checkpoint env slot1 (env.pos_min slot1) (env.pos_max slot1)
              else slot1,
          ask_logits batch last,
        ))

unfoldable pub add_prompt : UpdateEnv → Task → Filling → Result Filling
unfolding makes_checkpoints fill finish_prompt
add_prompt env task f =
    let slot = f.slot in
    let p = slot.prompt in
    let do_checkpoint = makes_checkpoints env task in
    fill env task do_checkpoint f.alora_scale (drop (length p.tokens.tokens) task.tokens.tokens)
      (slot, f.batch)
    >>= λ r. finish_prompt env task do_checkpoint r >>= λ (slot1, batch1).
        ok (record f { slot = slot1; batch = batch1 })

-- A slot in state processing_prompt.
unfoldable pub continue_prompt : UpdateEnv → Task → Filling → Result Continued
unfolding truncate_memory process_media disable_alora add_prompt
continue_prompt env task f =
    if not (can_split env task) && ltb env.n_batch (length f.batch + length task.tokens.tokens)
    then ok waits
    else (process_media env (truncate_memory env f.slot) task >>= λ (slot1, decoded).
        if not decoded
        then ok (media_failed slot1)
        else (disable_alora (record f { slot = slot1 }) >>= λ f1.
            add_prompt env task f1 >>= λ f2. ok (continued f2)))
