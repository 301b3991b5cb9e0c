-- ===== src/Update/Begin.antt =====
-- core/src/server/server-context.cpp, update_slots: a slot that was started looks at its prompt. It is
-- refused, or it keeps what the cached prompt has in common with the new one.
pub mod Resumed
use llama_go.Base.{
  ℕ, zero, suc, ◌+◌, ◌-◌, min, max, Bool, true, false, not, ◌&&◌, ◌||◌, Option, none, some, List,
  [], ◌∷◌, ltb, leb, ◌==◌, if◌then◌else◌, length, keep, ℤ, pos, negsuc, minus_one, ◌==ℤ◌, Result,
  ok, err, assert_failed, ◌>>=◌,
}
use llama_go.Tokens.{Tokens, get_common_prefix, keep_first}
use llama_go.Task.{Task, ErrorType, server, exceed_context_size, need_embd, need_logits}
use llama_go.Cache.{Checkpoint}
use llama_go.Slots.{Slot, processing_prompt}
use llama_go.Update.{UpdateEnv}
use llama_go.Update.Reuse.{reuse_chunks}

-- What becomes of a slot that was started: an empty prompt is answered at once, a slot may be refused,
-- or it has a prompt to process; the Boolean tells whether the client is told of the progress.
pub data Begun : Type 0 where
  emptied : Begun
  refused : ErrorType → Begun
  begun : Slot → Bool → Begun

unfoldable pub can_split : UpdateEnv → Task → Bool
can_split env task = not (need_embd task.info) || env.has_kv && env.pools_last

-- n_past is not beyond the invocation of an aLoRA.
unfoldable pub before_invocation : ℤ → ℕ → ℕ
before_invocation (pos (suc k)) n_past = min n_past k
before_invocation _ n_past = n_past

unfoldable pub with_tokens : Slot → Tokens → Slot
with_tokens slot ts = let p = slot.prompt in record slot { prompt = record p { tokens = ts } }

-- The reuse of chunks, where the context can shift and it is asked for: the tokens, and n_past.
unfoldable pub reuse : UpdateEnv → Tokens → Tokens → ℤ → ℕ → Result (Tokens × ℕ)
reuse env cached input (pos (suc m)) n_past =
    let e = env.env in
    if env.can_shift && not cached.has_mtmd
    then (if e.has_mctx
        then err assert_failed
        else (reuse_chunks (suc (length cached.tokens)) cached.tokens input.tokens (suc m) n_past
              n_past n_past
            >>= λ (ys, n). ok (record cached { tokens = ys }, n)))
    else ok (cached, n_past)
reuse env cached input _ n_past = ok (cached, n_past)

unfoldable pub find_past : UpdateEnv → Slot → Task → Result (Tokens × ℕ)
unfolding before_invocation reuse
find_past env slot task =
    let params = task.params in
    let cached = slot.prompt.tokens in
    if params.cache_prompt
    then (get_common_prefix cached task.tokens >>= λ n.
        reuse env cached task.tokens params.n_cache_reuse
          (before_invocation slot.alora_invocation_start n))
    else ok (cached, 0)

-- pos_min > pos_min_thold
unfoldable pub lies_above : ℤ → ℕ → Bool
lies_above (pos a) n = ltb n a
lies_above (negsuc a) n = false

-- The last checkpoint that starts before the position.
unfoldable pub find_checkpoint : List Checkpoint → ℕ → Option Checkpoint
find_checkpoint [] n = none
find_checkpoint (c ∷ cs) n = elim (find_checkpoint cs n) [
  | some d ↦ some d
  | none ↦ if ltb c.pos_min n then some c else none
]

-- n_past after a checkpoint was restored, or after all is to be processed again.
unfoldable pub restore : UpdateEnv → Slot → ℕ → Option Checkpoint → ℕ
restore env slot n_past none = 0
restore env slot n_past (some c) =
    if env.restores slot c then min n_past (max (c.pos_min + 1) c.pos_max) else 0

-- The memory may have lost what the cached prompt needs.
unfoldable pub check_memory : UpdateEnv → Slot → ℕ → Result ℕ
unfolding lies_above find_checkpoint restore
check_memory env slot n_past =
    let e = env.env in
    let p = slot.prompt in
    let tokens = p.tokens in
    let pos_min = env.pos_min slot in
    let pos_min_thold = n_past - env.n_swa in
    if not e.has_mctx && ltb 0 n_past && ltb n_past (length tokens.tokens)
    then (if pos_min ==ℤ minus_one
        then err assert_failed
        else (if lies_above pos_min pos_min_thold
            then (if tokens.has_mtmd
                then err assert_failed
                else ok (restore env slot n_past (find_checkpoint p.checkpoints pos_min_thold)))
            else ok n_past))
    else ok n_past

-- The checkpoints behind the position are erased.
unfoldable pub erase_checkpoints : Slot → ℕ → Slot
erase_checkpoints slot pos_min_thold =
    let p = slot.prompt in
    record slot {
      prompt = record p {
        checkpoints = keep (λ c. not (ltb pos_min_thold c.pos_min)) p.checkpoints;
      };
    }

-- At least one token of the prompt is processed.
unfoldable pub leave_one : ℕ → ℕ → ℕ
leave_one n_past n_tokens = if n_past == n_tokens && ltb 0 n_past then n_past - 1 else n_past

unfoldable pub keep_past : Slot → Task → ℕ → Result Begun
unfolding leave_one with_tokens
keep_past slot task n_past =
    let params = task.params in
    let n = leave_one n_past (length task.tokens.tokens) in
    keep_first slot.prompt.tokens n >>= λ ts. ok (
      begun
        (record (with_tokens slot ts) { n_prompt_tokens_cache = n; n_prompt_tokens_processed = 0 })
        (params.stream && params.return_progress))

-- The prompt of a slot that can be split.
unfoldable pub resume : UpdateEnv → Slot → Task → Result Begun
unfolding find_past check_memory erase_checkpoints keep_past with_tokens
resume env slot task = find_past env slot task >>= λ (ts, n).
    check_memory env (with_tokens slot ts) n >>= λ n_past.
    keep_past (erase_checkpoints (with_tokens slot ts) (n - env.n_swa)) task n_past

unfoldable pub begin_prompt : UpdateEnv → Slot → Task → Result Begun
unfolding can_split resume keep_past
begin_prompt env slot task =
    let n_tokens = length task.tokens.tokens in
    let slot1 = record slot { state = processing_prompt } in
    if n_tokens == 0
    then ok emptied
    else (if need_logits task.info && not env.has_kv
        then ok (refused server)
        else (if not (can_split env task)
            then (if ltb env.n_ubatch n_tokens
                then ok (refused server)
                else (if ltb slot.n_ctx n_tokens
                    then ok (refused exceed_context_size)
                    else keep_past slot1 task 0))
            else (if leb slot.n_ctx n_tokens
                then ok (refused exceed_context_size)
                else resume env slot1 task)))
