-- ===== src/Slots/Tasks.antt =====
-- core/src/server/server-context.cpp, process_single_task: what the main loop does with a task.
use llama_go.Base.{
  ℕ, suc, Bool, true, false, Option, none, some, List, [], ◌∷◌, ◌==◌, ltb, if◌then◌else◌, length,
  get_elem?, set, ℤ, minus_one, ◌==ℤ◌, Result, ok, ◌>>=◌,
}
use llama_go.Tokens.{clear, insert, get_text_tokens}
use llama_go.Task.{
  Task, TaskInfo, invalid_request, not_supported, is_parent, metrics_result, slot_save_load,
  slot_erased, lora_list, lora_applied, completion, embedding, rerank, infill, cancel,
  next_response, metrics, slot_save, slot_restore, slot_erase, get_lora, set_lora,
}
use llama_go.Lora.{construct_lora_list}
use llama_go.Queue.{Queue, defer}
use llama_go.Slots.{
  Slot, Env, Server, is_processing, prompt_clear, release, send_error, send_result, result_for,
}
use llama_go.Slots.Select.{get_slot_by_id, get_available_slot, get_free_slots}
use llama_go.Slots.Launch.{launch_slot_with_task, launch_slots_with_parent_task}

unfoldable pub defer_task : Server → Task → ℕ → Server
defer_task s task now = record s { queue_tasks = defer s.queue_tasks task now }

-- tokenize_cli_input; none if the input has no tokens.
unfoldable pub tokenized : Env → Task → Option Task
tokenized env task =
    if task.cli
    then (elim (env.tokenize task.info) [
      | none ↦ none
      | some ts ↦ let i = task.info in some (record task { info = record i { tokens = ts } })
    ])
    else some task

unfoldable pub slot_for : Env → Server → Task → Result (Server × Option ℕ)
slot_for env s task =
    if task.id_slot ==ℤ minus_one
    then get_available_slot env s task
    else ok (s, get_slot_by_id s.slots task.id_slot)

unfoldable pub start_parent : Env → ℕ → Server → ℕ → Slot → Task → Result Server
unfolding defer_task
start_parent env now s place slot task =
    let child_slots = get_free_slots (length task.child_tasks) slot.id s.slots 0 in
    if ltb (length child_slots) (length task.child_tasks)
    then ok (defer_task s task now)
    else (launch_slots_with_parent_task env now s place child_slots task >>= λ r. ok r.0)

-- The scheduling of a task at a slot, if there is one.
unfoldable pub start_at : Env → ℕ → Task → Server × Option ℕ → Result Server
unfolding start_parent defer_task
start_at env now task (s, none) = ok (defer_task s task now)
start_at env now task (s, some place) = elim (get_elem? s.slots place) [
  | none ↦ ok (defer_task s task now)
  | some slot ↦
      if is_processing slot
      then ok (defer_task s task now)
      else (if is_parent task
          then start_parent env now s place slot task
          else (launch_slot_with_task env s place task >>= λ r. ok r.0))
]

-- SERVER_TASK_TYPE_COMPLETION, INFILL, EMBEDDING and RERANK
unfoldable pub process_inference : Env → ℕ → Server → Task → Result Server
unfolding tokenized slot_for start_at
process_inference env now s task = elim (tokenized env task) [
  | none ↦ ok (send_error s task.info invalid_request)
  | some t ↦ slot_for env s t >>= start_at env now t
]

unfoldable pub has_task_id : ℤ → Option Task → Bool
has_task_id i none = false
has_task_id i (some t) = t.id ==ℤ i

-- The loop of a cancel task: the first slot that has the task is released.
unfoldable pub release_task : ℕ → ℤ → Queue → List Slot → Result (Queue × List Slot)
unfolding has_task_id release
release_task now id_target q [] = ok (q, [])
release_task now id_target q (slot ∷ slots) =
    let skip = release_task now id_target q slots in
    if has_task_id id_target slot.task
    then (release now q slot >>= λ (q1, slot1). ok (q1, slot1 ∷ slots))
    else (skip >>= λ (q1, slots1). ok (q1, slot ∷ slots1))

-- SERVER_TASK_TYPE_CANCEL
unfoldable pub process_cancel : ℕ → Server → ℤ → Result Server
unfolding release_task
process_cancel now s id_target = release_task now id_target s.queue_tasks s.slots >>= λ (q, slots).
    ok (record s { queue_tasks = q; slots = slots })

pub count_processing : List Slot → ℕ
count_processing [] = 0
count_processing (slot ∷ slots) =
    let rest = count_processing slots in if is_processing slot then suc rest else rest

count_idle : List Slot → ℕ
count_idle [] = 0
count_idle (slot ∷ slots) =
    let rest = count_idle slots in if is_processing slot then rest else suc rest

-- SERVER_TASK_TYPE_METRICS: of what is counted, the slots and the deferred tasks.
unfoldable pub process_metrics : Server → TaskInfo → Server
unfolding count_processing count_idle
process_metrics s task = send_result s (
    result_for task minus_one (
      metrics_result (count_idle s.slots) (count_processing s.slots)
        (length s.queue_tasks.queue_tasks_deferred)))

unfoldable pub path_of : TaskInfo → List ℕ
path_of task = let action = task.slot_action in action.filepath

-- SERVER_TASK_TYPE_SLOT_SAVE, SLOT_RESTORE and SLOT_ERASE at the slot that is asked for, when it is idle.
unfoldable pub save_slot : Env → Server → TaskInfo → Slot → Result Server
save_slot env s task slot =
    let action = task.slot_action in
    get_text_tokens slot.prompt.tokens >>= λ tokens. ok (
      send_result s (
        result_for task action.id_slot
          (slot_save_load true (length tokens) (env.save_file (path_of task) slot))))

unfoldable pub restore_slot : Env → Server → TaskInfo → ℕ → Slot → Result Server
restore_slot env s task place slot =
    let action = task.slot_action in
    let (nread, tokens) = env.load_file (path_of task) slot in
    let p = slot.prompt in
    let cleared = clear p.tokens in
    if nread == 0
    then ok (
        send_error
          (record s {
            slots = set s.slots place (record slot { prompt = record p { tokens = cleared } });
          })
          task invalid_request)
    else (insert cleared tokens >>= λ ts. ok (
        send_result
          (record s {
            slots = set s.slots place (record slot { prompt = record p { tokens = ts } });
          })
          (result_for task action.id_slot (slot_save_load false (length tokens) nread))))

unfoldable pub erase_slot : Server → TaskInfo → ℕ → Slot → Result Server
erase_slot s task place slot =
    let action = task.slot_action in
    prompt_clear slot false >>= λ slot1. ok (
      send_result (record s { slots = set s.slots place slot1 })
        (result_for task action.id_slot (slot_erased (length slot.prompt.tokens.tokens))))

unfoldable pub slot_asked : Task → ℤ
slot_asked task = let action = task.slot_action in action.id_slot

-- What the three have in common: multimodal contexts are refused, and a busy slot is waited for.
unfoldable pub with_idle_slot : Env → ℕ → Server → Task → (ℕ → Slot → Result Server) → Result Server
unfolding defer_task
with_idle_slot env now s task action =
    if env.has_mctx
    then ok (send_error s task.info not_supported)
    else elim (get_slot_by_id s.slots (slot_asked task)) [
      | none ↦ ok (send_error s task.info invalid_request)
      | some place ↦ elim (get_elem? s.slots place) [
        | none ↦ ok (send_error s task.info invalid_request)
        | some slot ↦ if is_processing slot then ok (defer_task s task now) else action place slot
      ]
    ]

unfoldable pub process_single_task : Env → ℕ → Server → Task → Result Server
unfolding process_inference process_cancel process_metrics save_slot restore_slot erase_slot
    with_idle_slot
process_single_task env now s task = elim task.type [
  | completion ↦ process_inference env now s task
  | infill ↦ process_inference env now s task
  | embedding ↦ process_inference env now s task
  | rerank ↦ process_inference env now s task
  | cancel ↦ process_cancel now s task.id_target
  | next_response ↦ ok s
  | metrics ↦ ok (process_metrics s task.info)
  | slot_save ↦ with_idle_slot env now s task (λ place slot. save_slot env s task.info slot)
  | slot_restore ↦ with_idle_slot env now s task (restore_slot env s task.info)
  | slot_erase ↦ with_idle_slot env now s task (erase_slot s task.info)
  | get_lora ↦ ok (send_result s (result_for task.info minus_one (lora_list s.lora_adapters)))
  | set_lora ↦ ok (
      send_result
        (record s { lora_adapters = construct_lora_list s.lora_adapters task.set_lora_map })
        (result_for task.info minus_one lora_applied))
]
