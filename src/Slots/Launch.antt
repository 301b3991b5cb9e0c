-- ===== src/Slots/Launch.antt =====
-- core/src/server/server-context.cpp, launch_slot_with_task and launch_slots_with_parent_task: a task
-- is given to a slot, or refused with an error.
use llama_go.Base.{
  ℕ, zero, suc, Bool, true, false, not, ◌&&◌, ◌||◌, Option, none, some, List, [], ◌∷◌, ◌==◌,
  if◌then◌else◌, length, get_elem?, set, ℤ, pos, ◌==ℤ◌, Result, ok, err, assert_failed, ◌>>=◌,
}
use llama_go.Tokens.{validate}
use llama_go.Task.{
  Task, TaskInfo, LoraInfo, ErrorType, invalid_request, need_sampling, is_child, is_parent,
}
use llama_go.Lora.{
  lora_all_alora, lora_get_enabled_ids, are_lora_equal, lora_should_clear_cache,
  construct_lora_list, alora_start,
}
use llama_go.Queue.{Queue}
use llama_go.Slots.{
  Slot, started, wait_other, Env, Server, is_processing, clear_prompt, release, send_error,
}

-- The adapters of the request.
unfoldable pub set_request_lora : List LoraInfo → Slot → Task → Result Slot
set_request_lora adapters slot task = elim task.params.lora [
  | [] ↦ ok (record slot { lora = adapters })
  | c ∷ cs ↦
      let loras = construct_lora_list adapters task.params.lora in
      if are_lora_equal loras slot.lora
      then ok slot
      else (lora_should_clear_cache slot.lora loras >>= λ clears.
          ok (record (if clears then clear_prompt slot else slot) { lora = loras }))
]

unscale : List LoraInfo → ℕ → List LoraInfo
unscale [] i = []
unscale (l ∷ ls) zero = record l { scale = pos 0 } ∷ ls
unscale (l ∷ ls) (suc i) = l ∷ unscale ls i

-- The one aLoRA that is enabled is activated where the prompt invokes it, or disabled.
activate : Slot → Task → ℕ → Option LoraInfo → Slot
unfolding unscale
activate slot task id none = slot
activate slot task id (some l) = elim (alora_start l.invocation task.tokens.tokens) [
  | none ↦ record slot { lora = unscale slot.lora id }
  | some i ↦ record slot { alora_invocation_start = pos i }
]

-- The Boolean is false if several aLoRAs are requested.
unfoldable pub set_alora : Slot → Task → Slot × Bool
unfolding activate
set_alora slot task =
    if lora_all_alora slot.lora
    then elim (lora_get_enabled_ids slot.lora) [
      | [] ↦ (slot, false)
      | id ∷ ids ↦ elim ids [
        | [] ↦ (activate slot task id (get_elem? slot.lora id), true)
        | _ ∷ _ ↦ (slot, false)
      ]
    ]
    else (slot, true)

unfoldable pub started_with : Slot → Task → Slot
started_with slot task = record slot {
  task = some task;
  state = if is_child task.info then wait_other else started;
}

-- The sampler is made, and the task is given to the slot.
unfoldable pub start_slot : Env → Slot → Task → Slot × Option ErrorType
unfolding started_with
start_slot env slot task =
    let made = need_sampling task.info && env.sampler_init task.params in
    let slot1 = record slot { has_sampler = made } in
    if need_sampling task.info && not made
    then (slot1, some invalid_request)
    else (started_with slot1 task, none)

-- The Boolean tells whether the adapters are admissible.
unfoldable pub check_tokens : Env → Task → Slot × Bool → Result (Slot × Option ErrorType)
unfolding start_slot
check_tokens env task (slot, single) =
    if not single
    then ok (slot, some invalid_request)
    else (validate env.n_vocab task.tokens >>= λ valid.
        ok (if valid then start_slot env slot task else (slot, some invalid_request)))

-- launch_slot_with_task up to the error that is sent: the slot as it is left, and the error or none.
unfoldable pub launch_slot : Env → List LoraInfo → Slot → Task → Result (Slot × Option ErrorType)
unfolding set_request_lora set_alora check_tokens
launch_slot env adapters slot task =
    set_request_lora adapters slot task >>= λ slot1. check_tokens env task (set_alora slot1 task)

unfoldable pub finish_launch : Server → ℕ → Task → Slot × Option ErrorType → Server × Bool
finish_launch s place task (slot, none) = (record s { slots = set s.slots place slot }, true)
finish_launch s place task (slot, some e) =
    (send_error (record s { slots = set s.slots place slot }) task.info e, false)

unfoldable pub launch_slot_with_task : Env → Server → ℕ → Task → Result (Server × Bool)
unfolding launch_slot finish_launch
launch_slot_with_task env s place task = elim (get_elem? s.slots place) [
  | none ↦ err assert_failed
  | some slot ↦ launch_slot env s.lora_adapters slot task >>= λ r. ok (finish_launch s place task r)
]

unfoldable pub belongs_to : ℤ → Option Task → Bool
belongs_to id_parent none = false
belongs_to id_parent (some t) = t.id ==ℤ id_parent || t.id_parent ==ℤ id_parent

-- The loop of release_slots.
unfoldable pub release_family : ℕ → ℤ → Queue → List Slot → Result (Queue × List Slot)
unfolding belongs_to release
release_family now id_parent q [] = ok (q, [])
release_family now id_parent q (slot ∷ slots) =
    let skip = release_family now id_parent q slots in
    if is_processing slot && belongs_to id_parent slot.task
    then (release now q slot >>= λ (q1, slot1).
        release_family now id_parent q1 slots >>= λ (q2, slots2). ok (q2, slot1 ∷ slots2))
    else (skip >>= λ (q2, slots2). ok (q2, slot ∷ slots2))

unfoldable pub release_slots : ℕ → ℤ → Server → Result Server
unfolding release_family
release_slots now id_parent s = release_family now id_parent s.queue_tasks s.slots >>= λ (q, slots).
    ok (record s { queue_tasks = q; slots = slots })

unfoldable pub child_task : TaskInfo → Task
child_task t = record { info = t; child_tasks = [] }

-- The loop over the child slots; the Boolean tells whether all were launched.
unfoldable pub launch_children : Env → Server → List ℕ → List TaskInfo → Result (Server × Bool)
unfolding launch_slot_with_task child_task
launch_children env s [] tasks = ok (s, true)
launch_children env s (place ∷ places) [] = err assert_failed
launch_children env s (place ∷ places) (t ∷ ts) =
    launch_slot_with_task env s place (child_task t) >>= λ (s1, launched).
    let rest = launch_children env s1 places ts in if launched then rest else ok (s1, false)

unfoldable pub launch_parent : Env → ℕ → Server → ℕ → Task → Result (Server × Bool)
unfolding launch_slot_with_task release_slots
launch_parent env now s place task = launch_slot_with_task env s place task >>= λ (s1, launched).
    if launched then ok (s1, true) else (release_slots now task.id s1 >>= λ s2. ok (s2, false))

unfoldable pub busy_at : List Slot → ℕ → Bool
busy_at slots place = elim (get_elem? slots place) [ none ↦ true | some slot ↦ is_processing slot ]

unfoldable pub launch_slots_with_parent_task :
    Env → ℕ → Server → ℕ → List ℕ → Task → Result (Server × Bool)
unfolding launch_children launch_parent busy_at
launch_slots_with_parent_task env now s place child_slots task =
    if busy_at s.slots place
      || not (is_parent task)
      || not (length child_slots == length task.child_tasks)
    then err assert_failed
    else (launch_children env s child_slots task.child_tasks >>= λ (s1, launched).
        if launched
        then launch_parent env now s1 place task
        else (release_slots now task.id s1 >>= λ s2. ok (s2, false)))
