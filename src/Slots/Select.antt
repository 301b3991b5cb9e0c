-- ===== src/Slots/Select.antt =====
-- core/src/server/server-context.cpp, get_slot_by_id, get_available_slot, get_free_slots and
-- try_clear_idle_slots: which slot a task gets.
use llama_go.Base.{
  ℕ, suc, ◌-◌, ◌+◌, ◌%◌, ◌^◌, Bool, true, false, not, ◌&&◌, ◌||◌, Option, none, some, List, [], ◌∷◌,
  ◌==◌, leb, if◌then◌else◌, length, get_elem?, set, ℤ, pos, negsuc, Result, ok, err, assert_failed,
  ◌>>=◌,
}
use llama_go.Tokens.{get_common_prefix}
use llama_go.Task.{Task, TaskType, completion}
use llama_go.Cache.{Cache, alloc, load, update}
use llama_go.Slots.{Slot, Env, Server, is_processing, clear_prompt, prompt_clear}

-- id_slot % slots.size(): the int is converted to size_t first.
unfoldable pub wrap_id : ℤ → ℕ → ℕ
wrap_id (pos n) n_slots = n % n_slots
wrap_id (negsuc n) n_slots = (2 ^ 64 - (n + 1)) % n_slots

-- The place of the first slot with the id, from the place given on.
unfoldable pub find_slot : ℕ → List Slot → ℕ → Option ℕ
find_slot id [] place = none
find_slot id (slot ∷ slots) place =
    let rest = find_slot id slots (suc place) in if slot.id == id then some place else rest

unfoldable pub get_slot_by_id : List Slot → ℤ → Option ℕ
unfolding wrap_id find_slot
get_slot_by_id slots id_slot = find_slot (wrap_id id_slot (length slots)) slots 0

unfoldable pub le_time : ℤ → ℤ → Bool
le_time (pos a) (pos b) = leb a b
le_time (pos a) (negsuc b) = false
le_time (negsuc a) (pos b) = true
le_time (negsuc a) (negsuc b) = leb b a

-- The choice of the slot that was used the longest ago: `t_last` and `best` are those so far.
unfoldable pub least_recent : List Slot → ℕ → ℤ → Option ℕ → Option ℕ
unfolding le_time
least_recent [] place t_last best = best
least_recent (slot ∷ slots) place t_last best =
    let skip = least_recent slots (suc place) t_last best in
    let choose = least_recent slots (suc place) slot.t_last_used (some place) in
    if is_processing slot then skip else (elim best [
      | none ↦ choose
      | some b ↦ if le_time slot.t_last_used t_last then choose else skip
    ])

module _ (env : Env) where
  abbrev less : env.floats.Float → env.floats.Float → Bool
  less a b = env.floats.lt a b

  -- float(lcp) / task.tokens.size()
  pub similarity_of : ℕ → Task → env.floats.Float
  similarity_of lcp task =
      env.floats.div (env.floats.of_nat lcp) (env.floats.of_nat (length task.tokens.tokens))

  -- The choice of the idle slot whose prompt is most similar to that of the task.
  unfoldable pub most_similar :
      Task → List Slot → ℕ → env.floats.Float → Option ℕ → Result (Option ℕ × env.floats.Float)
  most_similar task [] place sim_best best = ok (best, sim_best)
  most_similar task (slot ∷ slots) place sim_best best =
      let skip = most_similar task slots (suc place) sim_best best in
      let choose =
        λ (sim : env.floats.Float). most_similar task slots (suc place) sim (some place) in
      if is_processing slot
      then skip
      else (if length slot.prompt.tokens.tokens == 0
          then skip
          else (get_common_prefix slot.prompt.tokens task.tokens >>= λ lcp.
              let sim_cur = similarity_of lcp task in
              if less sim_best sim_cur && less env.similarity sim_cur
              then choose sim_cur
              else skip))

  -- slot_prompt_similarity != 0.0f
  pub uses_similarity : Bool
  uses_similarity = less env.floats.zero_f env.similarity || less env.similarity env.floats.zero_f

  -- f_keep < 0.5f
  pub loses_much : env.floats.Float → Task → Option Slot → Bool
  loses_much sim_best task none = false
  loses_much sim_best task (some slot) =
      less
        (env.floats.div (env.floats.mul sim_best (env.floats.of_nat (length task.tokens.tokens)))
          (env.floats.of_nat (length slot.prompt.tokens.tokens)))
        env.floats.half

  -- The slot, and whether its prompt should go to the cache.
  unfoldable pub choose_slot : List Slot → Task → Result (Option ℕ × Bool)
  unfolding most_similar least_recent uses_similarity loses_much
  choose_slot slots task =
      let by_use = least_recent slots 0 (negsuc 0) none in
      (if uses_similarity
        then most_similar task slots 0 env.floats.zero_f none
        else ok (none, env.floats.zero_f))
      >>= λ (best, sim_best). elim best [
        | some place ↦ ok (some place, loses_much sim_best task (get_elem? slots place))
        | none ↦ ok (by_use, true)
      ]

  unfoldable pub is_completion : TaskType → Bool
  is_completion completion = true
  is_completion _ = false

  -- prompt_save, prompt_load and update.
  unfoldable pub swap_prompt : Cache → Slot → Task → Result (Cache × Slot)
  swap_prompt c slot task =
      if not (slot.prompt.data_size == 0)
      then err assert_failed
      else (let size = env.state_size slot in
          alloc env.floats c slot.prompt size (env.has_memory size) >>= λ (c1, added).
          load env.floats env.restored c1 slot.prompt task.tokens >>= λ (c2, p, restored).
          (if restored then ok (record slot { prompt = p }) else prompt_clear slot false)
          >>= λ slot1. ok (update env.floats c2, slot1))

  unfoldable pub update_cache : Server → ℕ → Slot → Task → Result Server
  unfolding swap_prompt is_completion
  update_cache s place slot task = elim s.prompt_cache [
    | none ↦ ok s
    | some c ↦
        if is_completion task.type
          && not (length slot.prompt.tokens.tokens == 0)
          && not env.has_mctx
        then (swap_prompt c slot task >>= λ (c1, slot1).
            ok (record s { slots = set s.slots place slot1; prompt_cache = some c1 }))
        else ok s
  ]

  unfoldable pub get_available_slot : Server → Task → Result (Server × Option ℕ)
  unfolding choose_slot update_cache
  get_available_slot s task = choose_slot s.slots task >>= λ (best, wanted). elim best [
    | none ↦ ok (s, none)
    | some place ↦ elim (get_elem? s.slots place) [
      | none ↦ ok (s, none)
      | some slot ↦
          (if wanted then update_cache s place slot task else ok s) >>= λ s1. ok (s1, some place)
    ]
  ]

-- The places of at most `needed` idle slots other than the one with the id.
unfoldable pub get_free_slots : ℕ → ℕ → List Slot → ℕ → List ℕ
get_free_slots needed exclude [] place = []
get_free_slots needed exclude (slot ∷ slots) place =
    let skip = get_free_slots needed exclude slots (suc place) in
    let used = get_free_slots (needed - 1) exclude slots (suc place) in
    if not (is_processing slot) && not (slot.id == exclude)
    then place ∷ (if leb needed 1 then [] else used)
    else (if needed == 0 then [] else skip)

-- The first idle slot with a prompt loses it.
unfoldable pub clear_first_idle : List Slot → List Slot × Bool
clear_first_idle [] = ([], false)
clear_first_idle (slot ∷ slots) =
    let rest = clear_first_idle slots in
    if not (is_processing slot) && not (length slot.prompt.tokens.tokens == 0)
    then (clear_prompt slot ∷ slots, true)
    else (slot ∷ rest.0, rest.1)

unfoldable pub try_clear_idle_slots : Env → Server → Server × Bool
unfolding clear_first_idle
try_clear_idle_slots env s =
    if not env.kv_unified
    then (s, false)
    else (let r = clear_first_idle s.slots in (record s { slots = r.0 }, r.1))
