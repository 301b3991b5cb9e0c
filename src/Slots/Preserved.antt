-- ===== src/Slots/Preserved.antt =====
-- core/src/server/server-context.cpp, get_available_slot: a slot that is chosen and whose prompt is swapped
-- is busy exactly while it has a task.
use llama_go.Base.{
  ℕ, ◌≡◌, subst, inl, inr, Bool, true, false, not, ◌&&◌, ◌==◌, Option, some, if◌then◌else◌, length,
  get_elem?, set, Bool-cases, Option-cases, arith, ok, bind_ok,
}
use llama_go.Task.{Task}
use llama_go.Cache.{Prompt, Cache, alloc, load}
use llama_go.Slots.{Slot, Env, Server, is_processing, clear_prompt, prompt_clear}
use llama_go.Slots.Select.{
  swap_prompt, update_cache, is_completion, choose_slot, get_available_slot,
}
use llama_go.Slots.Paired.{has_task, IsPaired, AllPaired, All-set, All-get}

pub prompt_clear-IsPaired :
    (slot slot' : Slot) (b : Bool) → IsPaired slot → prompt_clear slot b ≡ ok slot' → IsPaired slot'
unfolding prompt_clear clear_prompt has_task is_processing
prompt_clear-IsPaired slot slot' b p e =
    subst IsPaired {x = clear_prompt slot} {y = slot'} (ground arith) p

swap_prompt-IsPaired :
    (env : Env) (c c' : Cache) (slot slot' : Slot) (task : Task)
    → IsPaired slot
    → swap_prompt env c slot task ≡ ok (c', slot')
    → IsPaired slot'
unfolding swap_prompt has_task is_processing
swap_prompt-IsPaired env c c' slot slot' task p e =
    elim (Bool-cases (not (slot.prompt.data_size == 0))) [
      | inl k ↦ absurd (ground arith)
      | inr k ↦
          let size = env.state_size slot in
          let ((c1, added), f, e1) =
            bind_ok (alloc env.floats c slot.prompt size (env.has_memory size)) _ _
              (rw (k, swap_prompt) at e) in
          let ((c2, q, restored), g, e2) =
            bind_ok (load env.floats env.restored c1 slot.prompt task.tokens) _ _ e1 in
          let (slot1, l, e3) =
            bind_ok (if restored then ok (record slot { prompt = q }) else prompt_clear slot false)
              _ _ e2 in
          subst IsPaired {x = slot1} {y = slot'} (ground arith) (either slot slot1 q restored p l)
    ]
  where
    either :
        (slot slot' : Slot) (q : Prompt) (restored : Bool)
        → IsPaired slot
        → (if restored then ok (record slot { prompt = q }) else prompt_clear slot false) ≡ ok slot'
        → IsPaired slot'
    either slot slot' q true p e =
        subst IsPaired {x = record slot { prompt = q }} {y = slot'} (ground arith) p
    either slot slot' q false p e = prompt_clear-IsPaired slot slot' false p e

update_cache-AllPaired :
    (env : Env) (s s' : Server) (place : ℕ) (slot : Slot) (task : Task)
    → AllPaired s
    → IsPaired slot
    → update_cache env s place slot task ≡ ok s'
    → AllPaired s'
unfolding update_cache
update_cache-AllPaired env s s' place slot task h p e = elim (Option-cases s.prompt_cache) [
  | inl n ↦ subst AllPaired {x = s} {y = s'} (ground arith) h
  | inr (c, n) ↦
      elim (Bool-cases (
        is_completion env task.type
        && not (length slot.prompt.tokens.tokens == 0)
        && not env.has_mctx)) [
          | inr k ↦ subst AllPaired {x = s} {y = s'} (ground arith) h
          | inl k ↦
              let ((c1, slot1), f, e1) =
                bind_ok (swap_prompt env c slot task) _ _ (rw (n, k, update_cache) at e) in
              subst AllPaired
                {x = record s { slots = set s.slots place slot1; prompt_cache = some c1 }} {y = s'}
                (ground arith)
                (All-set IsPaired s.slots place slot1 h
                  (swap_prompt-IsPaired env c c1 slot slot1 task p f))
        ]
]

pub available-AllPaired :
    (env : Env) (s s' : Server) (task : Task) (best : Option ℕ)
    → AllPaired s
    → get_available_slot env s task ≡ ok (s', best)
    → AllPaired s'
unfolding get_available_slot
available-AllPaired env s s' task best h e =
    let ((place, wanted), f, e1) = bind_ok (choose_slot env s.slots task) _ _ e in
    elim (Option-cases place) [
      | inl n ↦ subst AllPaired {x = s} {y = s'} (ground arith) h
      | inr (i, n) ↦ elim (Option-cases (get_elem? s.slots i)) [
        | inl g ↦ subst AllPaired {x = s} {y = s'} (ground arith) h
        | inr (slot, g) ↦
            let (s1, l, e2) =
              bind_ok (if wanted then update_cache env s i slot task else ok s) _ _
                (rw (n, g) at e1) in
            subst AllPaired {x = s1} {y = s'} (ground arith)
              (either env s s1 i slot task wanted h (All-get IsPaired s.slots i slot h g) l)
      ]
    ]
  where
    either :
        (env : Env) (s s' : Server) (place : ℕ) (slot : Slot) (task : Task) (wanted : Bool)
        → AllPaired s
        → IsPaired slot
        → (if wanted then update_cache env s place slot task else ok s) ≡ ok s'
        → AllPaired s'
    either env s s' place slot task true h p e =
        update_cache-AllPaired env s s' place slot task h p e
    either env s s' place slot task false h p e = subst AllPaired {x = s} {y = s'} (ground arith) h
