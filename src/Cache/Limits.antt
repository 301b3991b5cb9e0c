-- ===== src/Cache/Limits.antt =====
-- core/src/server/server-task.cpp, server_prompt_cache::update: the limits, and what is given up for
-- them.
use llama_go.Base.{
  ℕ, ◌<◌, ◌≤◌, ◌≡◌, ◌⊎◌, Bool, true, false, List, [], ◌∷◌, ◌++◌, ltb, if◌then◌else◌,
}
use llama_go.Floats.{Floats}
use llama_go.Cache.{
  Prompt, Cache, sizes, tokens_all, size, n_tokens, shrink, limit_tokens_cur, update,
}

-- What was given up was needed: with the last state of it, the rest measured more than the limit.
abbrev pub IsNeeded : (List Prompt → ℕ) → ℕ → List Prompt → List Prompt → Type 0
IsNeeded measure limit before rest =
    (b : List Prompt) × (p : Prompt) × (before ≡ b ++ p ∷ []) × (limit < measure (p ∷ rest))

-- One loop: the newest state stays, what goes is a first part of the others, and no more of it than
-- needed.
record Shrunk (on : Bool) (measure : List Prompt → ℕ) (limit : ℕ) (old : List Prompt) (n : Prompt)
    (after : List Prompt) : Type 0 where
  before : List Prompt
  kept : List Prompt
  after_is : after ≡ kept ++ n ∷ []
  old_is : old ≡ before ++ kept
  fits : (on ≡ false) ⊎ (kept ≡ []) ⊎ (measure (kept ++ n ∷ []) ≤ limit)
  needed : (before ≡ []) ⊎ ((on ≡ true) × IsNeeded measure limit before (kept ++ n ∷ []))

-- A loop that runs if there is a limit at all.
stage : Bool → (List Prompt → ℕ) → ℕ → List Prompt → List Prompt
stage on measure limit ps = if on then shrink measure limit ps else ps

-- The cache when the loop for the size is over.
abbrev pub after_sizes : Cache → Cache
after_sizes c = record c {
  states = if ltb 0 c.limit_size then shrink sizes c.limit_size c.states else c.states;
}

-- What update leaves of a cache of the states `old` and the newest: both limits are kept if they are set,
-- unless the newest state alone is left, and what was given up is a first part of the old states, of which
-- even the last had to go.
pub record IsUpdated (fl : Floats) (c : Cache) (old : List Prompt) (newest : Prompt) : Type 0 where
  pub before : List Prompt
  pub kept : List Prompt
  pub left : (update fl c).states ≡ kept ++ newest ∷ []
  pub old_is : old ≡ before ++ kept
  pub small : (c.limit_size ≡ 0) ⊎ (kept ≡ []) ⊎ (size (update fl c) ≤ c.limit_size)
  pub few :
      (c.limit_tokens ≡ 0)
      ⊎ (kept ≡ [])
      ⊎ (n_tokens (update fl c) ≤ limit_tokens_cur fl (after_sizes c))
  pub needed :
      (before ≡ [])
      ⊎ IsNeeded sizes c.limit_size before (kept ++ newest ∷ [])
      ⊎ IsNeeded tokens_all (limit_tokens_cur fl (after_sizes c)) before (kept ++ newest ∷ [])
