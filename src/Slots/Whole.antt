-- ===== src/Slots/Whole.antt =====
-- core/src/server/server-context.cpp, process_single_task: a slot is busy exactly while it has a task,
-- whatever task is processed.
use llama_go.Base.{
  ℕ, ◌≡◌, refl, subst, inl, inr, false, ◌==◌, ltb, Option, none, some, List, length, get_elem?,
  Bool-cases, Option-cases, arith, ℤ, minus_one, ◌==ℤ◌, Result, ok, bind_ok,
}
use llama_go.Tokens.{clear, insert, get_text_tokens}
use llama_go.Task.{
  invalid_request, not_supported, Task, TaskInfo, TaskType, is_parent, completion, embedding,
  rerank, infill, cancel, next_response, metrics, slot_save, slot_restore, slot_erase, get_lora,
  set_lora,
}
use llama_go.Slots.{Slot, Env, Server, is_processing, prompt_clear, send_error, send_result}
use llama_go.Slots.Select.{get_slot_by_id, get_free_slots}
use llama_go.Slots.Launch.{launch_slot_with_task, launch_slots_with_parent_task}
use llama_go.Slots.Tasks.{
  tokenized, slot_for, start_parent, start_at, process_inference, release_task, process_cancel,
  process_metrics, save_slot, restore_slot, erase_slot, with_idle_slot, process_single_task,
  defer_task, slot_asked, path_of,
}
use llama_go.Slots.Paired.{
  has_task, IsPaired, AllPaired, All-set, All-get, launch-AllPaired, launch_slots-AllPaired,
  release_task-AllPaired,
}
use llama_go.Slots.Preserved.{prompt_clear-IsPaired, available-AllPaired}

start_parent-AllPaired :
    (env : Env) (now : ℕ) (s s' : Server) (place : ℕ) (slot : Slot) (task : Task)
    → AllPaired s
    → start_parent env now s place slot task ≡ ok s'
    → AllPaired s'
unfolding start_parent defer_task
start_parent-AllPaired env now s s' place slot task h e =
    let places : List ℕ = get_free_slots (length task.child_tasks) slot.id s.slots 0 in
    elim (Bool-cases (ltb (length places) (length task.child_tasks))) [
      | inl k ↦ subst AllPaired {x = defer_task s task now} {y = s'} (ground arith) h
      | inr k ↦
          let ((s1, b), f, e1) =
            bind_ok (launch_slots_with_parent_task env now s place places task) _ _
              (rw (k, start_parent) at e) in
          subst AllPaired {x = s1} {y = s'} (ground arith)
            (launch_slots-AllPaired env now s s1 place places task b h f)
    ]

start_at-AllPaired :
    (env : Env) (now : ℕ) (task : Task) (s s' : Server) (best : Option ℕ)
    → AllPaired s
    → start_at env now task (s, best) ≡ ok s'
    → AllPaired s'
unfolding start_at defer_task
start_at-AllPaired env now task s s' none h e =
    subst AllPaired {x = defer_task s task now} {y = s'} (ground arith) h
start_at-AllPaired env now task s s' (some place) h e =
    elim (Option-cases (get_elem? s.slots place)) [
      | inl n ↦ subst AllPaired {x = defer_task s task now} {y = s'} (ground arith) h
      | inr (slot, n) ↦ elim (Bool-cases (is_processing slot)) [
        | inl k ↦ subst AllPaired {x = defer_task s task now} {y = s'} (ground arith) h
        | inr k ↦ elim (Bool-cases (is_parent task)) [
          | inl l ↦
              start_parent-AllPaired env now s s' place slot task h (rw (n, k, l, start_at) at e)
          | inr l ↦
              let ((s1, b), f, e1) =
                bind_ok (launch_slot_with_task env s place task) _ _
                  (rw (n, k, l, start_at) at e) in
              subst AllPaired {x = s1} {y = s'} (ground arith)
                (launch-AllPaired env s s1 place task b h f)
        ]
      ]
    ]

inference-AllPaired :
    (env : Env) (now : ℕ) (s s' : Server) (task : Task)
    → AllPaired s
    → process_inference env now s task ≡ ok s'
    → AllPaired s'
unfolding process_inference slot_for send_error send_result
inference-AllPaired env now s s' task h e = elim (Option-cases (tokenized env task)) [
  | inl n ↦ subst AllPaired {x = send_error s task.info invalid_request} {y = s'} (ground arith) h
  | inr (t, n) ↦
      let ((s1, best), f, e1) = bind_ok (slot_for env s t) _ _ (rw (n, process_inference) at e) in
      start_at-AllPaired env now t s1 s' best (chosen env s s1 t best h f) e1
]
  where
    chosen :
        (env : Env) (s s' : Server) (t : Task) (best : Option ℕ)
        → AllPaired s
        → slot_for env s t ≡ ok (s', best)
        → AllPaired s'
    chosen env s s' t best h e = elim (Bool-cases (t.id_slot ==ℤ minus_one)) [
      | inl k ↦ available-AllPaired env s s' t best h (rw (k, slot_for) at e)
      | inr k ↦ subst AllPaired {x = s} {y = s'} (ground arith) h
    ]

cancel-AllPaired :
    (now : ℕ) (s s' : Server) (i : ℤ) → AllPaired s → process_cancel now s i ≡ ok s' → AllPaired s'
unfolding process_cancel
cancel-AllPaired now s s' i h e =
    let ((q, slots), f, e1) = bind_ok (release_task now i s.queue_tasks s.slots) _ _ e in
    subst AllPaired {x = record s { queue_tasks = q; slots = slots }} {y = s'} (ground arith)
      (release_task-AllPaired now i s.queue_tasks q s.slots slots h f)

of_ok : (s s' : Server) → ok s ≡ ok s' → AllPaired s → AllPaired s'
of_ok s s' e h = subst AllPaired {x = s} {y = s'} (ground arith) h

-- The action at an idle slot keeps the slots paired.
Keeps : Server → (ℕ → Slot → Result Server) → Type 0
Keeps s action =
    (place : ℕ) (slot : Slot) (s' : Server)
    → IsPaired slot
    → action place slot ≡ ok s'
    → AllPaired s'

idle-AllPaired :
    (env : Env) (now : ℕ) (s s' : Server) (task : Task) (action : ℕ → Slot → Result Server)
    → AllPaired s
    → Keeps s action
    → with_idle_slot env now s task action ≡ ok s'
    → AllPaired s'
unfolding with_idle_slot Keeps defer_task send_error send_result
idle-AllPaired env now s s' task action h keeps e = elim (Bool-cases env.has_mctx) [
  | inl k ↦ subst AllPaired {x = send_error s task.info not_supported} {y = s'} (ground arith) h
  | inr k ↦ elim (Option-cases (get_slot_by_id s.slots (slot_asked task))) [
    | inl n ↦ of_ok (send_error s task.info invalid_request) s' (rw (k, n, with_idle_slot) at e) h
    | inr (place, n) ↦ elim (Option-cases (get_elem? s.slots place)) [
      | inl g ↦
          of_ok (send_error s task.info invalid_request) s' (rw (k, n, g, with_idle_slot) at e) h
      | inr (slot, g) ↦ elim (Bool-cases (is_processing slot)) [
        | inl b ↦ of_ok (defer_task s task now) s' (rw (k, n, g, b, with_idle_slot) at e) h
        | inr b ↦
            keeps place slot s' (All-get IsPaired s.slots place slot h g)
              (rw (k, n, g, b, with_idle_slot) at e)
      ]
    ]
  ]
]

save-Keeps :
    (env : Env) (s : Server) (task : TaskInfo)
    → AllPaired s
    → Keeps s (λ place. save_slot env s task)
unfolding Keeps send_result save_slot
save-Keeps env s task h place slot s' p e =
    let (tokens, f, e1) = bind_ok (get_text_tokens slot.prompt.tokens) _ _ e in of_ok _ s' e1 h

restore-Keeps :
    (env : Env) (s : Server) (task : TaskInfo) → AllPaired s → Keeps s (restore_slot env s task)
unfolding Keeps restore_slot send_error send_result has_task is_processing
restore-Keeps env s task h place slot s' p e =
    let prompt = slot.prompt in
    elim (Bool-cases ((env.load_file (path_of task) slot).0 == 0)) [
      | inl k ↦ of_ok _ s' (rw (k, restore_slot) at e) (All-set IsPaired s.slots place _ h p)
      | inr k ↦
          let (ts, f, e1) =
            bind_ok (insert (clear prompt.tokens) (env.load_file (path_of task) slot).1) _ _
              (rw (k, restore_slot) at e) in
          of_ok _ s' e1 (All-set IsPaired s.slots place _ h p)
    ]

erase-Keeps : (s : Server) (task : TaskInfo) → AllPaired s → Keeps s (erase_slot s task)
unfolding Keeps erase_slot send_result
erase-Keeps s task h place slot s' p e =
    let (slot1, f, e1) = bind_ok (prompt_clear slot false) _ _ e in
    of_ok _ s' e1
      (All-set IsPaired s.slots place slot1 h (prompt_clear-IsPaired slot slot1 false p f))

-- If every slot is busy exactly while it has a task, then so it is after any task was processed.
pub process_single_task-AllPaired :
    (env : Env) (now : ℕ) (s s' : Server) (task : Task)
    → AllPaired s
    → process_single_task env now s task ≡ ok s'
    → AllPaired s'
unfolding process_single_task process_metrics send_result
process_single_task-AllPaired env now s s' task h e = by_type env now s s' task task.type h refl e
  where
    by_type :
        (env : Env) (now : ℕ) (s s' : Server) (task : Task) (type : TaskType)
        → AllPaired s
        → task.type ≡ type
        → process_single_task env now s task ≡ ok s'
        → AllPaired s'
    by_type env now s s' task completion h k e =
        inference-AllPaired env now s s' task h (rw (k, process_single_task) at e)
    by_type env now s s' task infill h k e =
        inference-AllPaired env now s s' task h (rw (k, process_single_task) at e)
    by_type env now s s' task embedding h k e =
        inference-AllPaired env now s s' task h (rw (k, process_single_task) at e)
    by_type env now s s' task rerank h k e =
        inference-AllPaired env now s s' task h (rw (k, process_single_task) at e)
    by_type env now s s' task cancel h k e =
        cancel-AllPaired now s s' task.id_target h (rw (k, process_single_task) at e)
    by_type env now s s' task next_response h k e = of_ok s s' (rw (k, process_single_task) at e) h
    by_type env now s s' task metrics h k e = of_ok _ s' (rw (k, process_single_task) at e) h
    by_type env now s s' task slot_save h k e =
        idle-AllPaired env now s s' task _ h (save-Keeps env s task.info h)
          (rw (k, process_single_task) at e)
    by_type env now s s' task slot_restore h k e =
        idle-AllPaired env now s s' task _ h (restore-Keeps env s task.info h)
          (rw (k, process_single_task) at e)
    by_type env now s s' task slot_erase h k e =
        idle-AllPaired env now s s' task _ h (erase-Keeps s task.info h)
          (rw (k, process_single_task) at e)
    by_type env now s s' task get_lora h k e = of_ok _ s' (rw (k, process_single_task) at e) h
    by_type env now s s' task set_lora h k e = of_ok _ s' (rw (k, process_single_task) at e) h
