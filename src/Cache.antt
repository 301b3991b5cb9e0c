-- ===== src/Cache.antt =====
-- core/src/server/server-task.h and server-task.cpp, server_prompt and server_prompt_cache: the
-- states of the model for old prompts, the oldest first. Of a state's bytes only their number is kept.
pub mod Limits
pub mod Distinct
use llama_go.Base.{
  ℕ, zero, suc, ◌+◌, ◌*◌, ◌^◌, max, Bool, true, false, not, ◌&&◌, ◌||◌, Option, none, some, List,
  [], ◌∷◌, ◌++◌, ltb, leb, ◌==◌, if◌then◌else◌, length, keep, any, ℤ, pos, negsuc, Result, ok, err,
  ◌>>=◌,
}
use llama_go.Floats.{Floats, max_f}
use llama_go.Tokens.{Tokens, get_common_prefix, get_text_tokens, text_prefix}

-- A server_prompt_checkpoint. Positions are not negative: a checkpoint is made only then.
pub record Checkpoint : Type 0 where
  pub pos_min : ℕ
  pub pos_max : ℕ
  pub data_size : ℕ

pub record Prompt : Type 0 where
  pub tokens : Tokens
  pub data_size : ℕ
  pub checkpoints : List Checkpoint

abbrev pub sum : List Checkpoint → ℕ
sum [] = 0
sum (c ∷ cs) = c.data_size + sum cs

unfoldable pub prompt_size : Prompt → ℕ
prompt_size p = p.data_size + sum p.checkpoints

unfoldable pub n_tokens_of : Prompt → ℕ
n_tokens_of p = length p.tokens.tokens

pub record Cache : Type 0 where
  pub states : List Prompt
  pub limit_size : ℕ
  pub limit_tokens : ℕ

-- The constructor; a negative limit means none.
pub new : ℤ → ℕ → Cache
new (pos mib) limit_tokens = record {
  states = [];
  limit_size = 1024 * 1024 * mib;
  limit_tokens = limit_tokens;
}
new (negsuc n) limit_tokens = record { states = []; limit_size = 0; limit_tokens = limit_tokens }

unfoldable pub sizes : List Prompt → ℕ
sizes [] = 0
sizes (p ∷ ps) = prompt_size p + sizes ps

unfoldable pub tokens_all : List Prompt → ℕ
tokens_all [] = 0
tokens_all (p ∷ ps) = n_tokens_of p + tokens_all ps

pub size : Cache → ℕ
unfolding sizes
size c = sizes c.states

pub n_tokens : Cache → ℕ
unfolding tokens_all
n_tokens c = tokens_all c.states

-- A loop of update: as long as there is more than one state and they measure more than the limit,
-- the oldest goes.
unfoldable pub shrink : (List Prompt → ℕ) → ℕ → List Prompt → List Prompt
shrink measure limit [] = []
shrink measure limit (p ∷ []) = p ∷ []
shrink measure limit (p ∷ q ∷ ps) =
    let rest = shrink measure limit (q ∷ ps) in
    if ltb limit (measure (p ∷ q ∷ ps)) then rest else p ∷ q ∷ ps

module _ (fl : Floats) where
  -- size_per_token and limit_tokens_cur
  unfoldable pub limit_tokens_cur : Cache → ℕ
  limit_tokens_cur c =
      if ltb 0 c.limit_size
      then max c.limit_tokens (
          fl.to_nat (
            fl.div (fl.of_nat c.limit_size)
              (max_f fl fl.one (fl.div (fl.of_nat (size c)) (fl.of_nat (max 1 (n_tokens c)))))))
      else c.limit_tokens

  unfoldable pub update : Cache → Cache
  unfolding shrink limit_tokens_cur
  update c =
      let c1 = record c {
        states = if ltb 0 c.limit_size then shrink sizes c.limit_size c.states else c.states;
      } in
      record c1 {
        states =
            if ltb 0 c1.limit_tokens
            then shrink tokens_all (limit_tokens_cur c1) c1.states
            else c1.states;
      }

  -- The states are text, so their common prefix with another prompt never fails.
  unfoldable pub prefix_with : Prompt → Tokens → ℕ
  prefix_with p t = text_prefix p.tokens.tokens t.tokens

  -- A state that the prompt begins with.
  unfoldable pub is_obsolete : Tokens → Prompt → Bool
  unfolding prefix_with
  is_obsolete t p = prefix_with p t == length p.tokens.tokens

  -- A state that begins with the prompt.
  unfoldable pub covers : Tokens → Prompt → Bool
  unfolding prefix_with
  covers t p = prefix_with p t == length t.tokens

  -- `memory_left` tells whether the resize of the buffer succeeds. The Boolean of the result tells
  -- whether a state was added, as the last one: the source returns a pointer to it, or null.
  unfoldable pub alloc : Cache → Prompt → ℕ → Bool → Result (Cache × Bool)
  unfolding is_obsolete covers update
  alloc c prompt state_size memory_left =
      if any (covers prompt.tokens) c.states
      then ok (c, false)
      else (let c1 = record c { states = keep (λ p. not (is_obsolete prompt.tokens p)) c.states } in
          if not memory_left
          then ok (
            update (record c1 {
              limit_size = max 1 (fl.to_nat (fl.mul fl.two_fifths (fl.of_nat (size c1))));
            }),
            false,
          )
          else (get_text_tokens prompt.tokens >>= λ ts.
              let cur : Prompt = record {
                tokens = record { has_mtmd = false; map_idx_to_media = []; tokens = ts };
                data_size = state_size;
                checkpoints = prompt.checkpoints;
              } in
              ok (record c1 { states = c1.states ++ cur ∷ [] }, true)))

  -- f_keep and sim of a prompt that shares lcp tokens with the new one.
  ratio : ℕ → ℕ → fl.Float
  ratio lcp n = fl.div (fl.of_nat lcp) (fl.of_nat n)

  -- The search of load. `passed` are the states gone by, and `best` splits them and the rest around
  -- the best state so far.
  pub find_best :
      Tokens
      → List Prompt
      → List Prompt
      → fl.Float
      → fl.Float
      → Option (List Prompt × Prompt × List Prompt)
      → Option (List Prompt × Prompt × List Prompt)
  unfolding ratio prefix_with
  find_best t passed [] f_keep_best sim_best best = best
  find_best t passed (p ∷ ps) f_keep_best sim_best best =
      let lcp = prefix_with p t in
      let f_keep_cur = ratio lcp (length p.tokens.tokens) in
      let sim_cur = ratio lcp (length t.tokens) in
      let better =
        not (fl.lt f_keep_cur fl.quarter)
        && fl.lt f_keep_best f_keep_cur
        && fl.lt sim_best sim_cur in
      find_best t (passed ++ p ∷ []) ps (if better then f_keep_cur else f_keep_best)
        (if better then sim_cur else sim_best) (if better then some (passed, p, ps) else best)

  -- `restored` tells how many bytes llama_state_seq_set_data_ext takes from a state.
  unfoldable pub load : (Prompt → ℕ) → Cache → Prompt → Tokens → Result (Cache × Prompt × Bool)
  unfolding find_best
  load restored c prompt tokens_new = get_common_prefix prompt.tokens tokens_new >>= λ lcp_best.
      elim (find_best tokens_new [] c.states (ratio lcp_best (length prompt.tokens.tokens))
        (ratio lcp_best (length tokens_new.tokens)) none) [
          | none ↦ ok (c, prompt, true)
          | some (before, p, after) ↦
              if restored p == p.data_size
              then ok (record c { states = before ++ after }, record p { data_size = 0 }, true)
              else ok (c, prompt, false)
        ]
