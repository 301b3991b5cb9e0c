-- ===== src/Update/Phases.antt =====
-- core/src/server/server-context.cpp, update_slots: the phases over all slots that fill the batch.
pub mod Busy
pub mod Paired
use llama_go.Base.{
  ℕ, zero, suc, Bool, true, false, not, ◌&&◌, ◌||◌, Option, none, some, List, [], ◌∷◌,
  if◌then◌else◌, ltb, leb, ◌==◌, length, get_elem?, set, ℤ, pos, Result, ok, err, out_of_bounds,
  ◌>>=◌,
}
use llama_go.Task.{Task, TaskType, LoraInfo, TaskType-discrete, server}
use llama_go.Lora.{are_lora_equal}
use llama_go.Generate.{is_positive}
use llama_go.Slots.{
  Slot, SlotState, idle, wait_other, started, processing_prompt, done_prompt, generating,
  is_processing,
}
use llama_go.Update.{UpdateEnv, BatchToken}
use llama_go.Update.Shift.{Shifted, refused, shifted, needs_shift, context_shift}
use llama_go.Update.Begin.{Begun, emptied, begun, begin_prompt}
use llama_go.Update.Draft.{add_sampled}
use llama_go.Update.Prompt.{Filling, Continued, waits, media_failed, continued, continue_prompt}
use llama_go.Update.Round.{
  Round, for_slots, put_slot, with_task, release_slot, refuse, send_progress, send_final_response,
}

unfoldable pub settle_shift : ℕ → ℕ → Slot → Task → Round → Shifted → Result Round
settle_shift now place slot task r (refused e) = release_slot now place slot (refuse task.info e r)
settle_shift now place slot task r (shifted slot1) = ok (put_slot place slot1 r)

unfoldable pub shift_at : UpdateEnv → ℕ → ℕ → Slot → Round → Result Round
unfolding settle_shift
shift_at env now place slot r =
    if needs_shift slot
    then with_task slot (λ task. context_shift env slot task >>= settle_shift now place slot task r)
    else ok r

same_type : TaskType → TaskType → Bool
same_type a b = elim (TaskType-discrete a b) [ yes e ↦ true | no n ↦ false ]

tasks_match : Option Task → Option Task → Result Bool
unfolding same_type
tasks_match (some a) (some b) = ok (same_type a.type b.type)
tasks_match _ _ = err out_of_bounds

-- can_batch_with
unfoldable pub can_batch_with : Slot → Slot → Result Bool
unfolding tasks_match
can_batch_with slot other =
    tasks_match slot.task other.task >>= λ same. ok (same && are_lora_equal slot.lora other.lora)

-- Whether the slot can be batched with the first slot in the batch, if there is one.
unfoldable pub joins : Round → Slot → Result Bool
joins r slot = elim r.slot_batched [
  | none ↦ ok true
  | some first ↦
      (let s = r.server in
        elim (get_elem? s.slots first) [
          | none ↦ err out_of_bounds
          | some batched ↦ can_batch_with batched slot
        ])
]

unfoldable pub mark_batched : ℕ → Round → Round
mark_batched place r = elim r.slot_batched [
  | none ↦ record r { slot_batched = some place }
  | some first ↦ r
]

unfoldable pub is_generating : SlotState → Bool
is_generating generating = true
is_generating _ = false

unfoldable pub sampled_at : UpdateEnv → ℕ → Slot → Round → Result Round
unfolding is_generating mark_batched
sampled_at env place slot r =
    if not (is_generating slot.state)
    then ok r
    else (joins r slot >>= λ joined.
        if not joined
        then ok r
        else with_task slot (λ task. add_sampled env slot task r.batch >>= λ (slot1, batch1).
            ok (record (put_slot place slot1 (mark_batched place r)) { batch = batch1 })))

-- What is left to do for a slot: nothing, only the end of the loop's body, or its prompt.
pub data Going : Type 0 where
  leave : Round → Going
  pass : Round → Going
  go_on : Slot → Task → Round → Going

unfoldable pub settle_begun : ℕ → ℕ → Slot → Task → Round → Begun → Result Going
settle_begun now place slot task r emptied =
    release_slot now place (record slot { state = processing_prompt })
      (send_final_response slot task r)
    >>= λ r1. ok (leave r1)
settle_begun now place slot task r (llama_go.Update.Begin.refused e) =
    release_slot now place (record slot { state = processing_prompt }) (refuse task.info e r)
    >>= λ r1. ok (leave r1)
settle_begun now place slot task r (begun slot1 told) =
    ok (go_on slot1 task (put_slot place slot1 (send_progress task told r)))

unfoldable pub going_on : Slot → Round → Result Going
going_on slot r = elim slot.task [ none ↦ err out_of_bounds | some task ↦ ok (go_on slot task r) ]

unfoldable pub starting : UpdateEnv → ℕ → ℕ → Slot → Round → Result Going
unfolding settle_begun
starting env now place slot r = elim slot.task [
  | none ↦ err out_of_bounds
  | some task ↦ begin_prompt env slot task >>= settle_begun now place slot task r
]

unfoldable pub begin_in : UpdateEnv → ℕ → ℕ → Slot → Round → SlotState → Result Going
unfolding starting going_on
begin_in env now place slot r idle = ok (pass r)
begin_in env now place slot r wait_other = ok (leave r)
begin_in env now place slot r started = starting env now place slot r
begin_in env now place slot r processing_prompt = going_on slot r
begin_in env now place slot r done_prompt = ok (pass r)
begin_in env now place slot r generating = ok (pass r)

-- The end of the loop's body.
unfoldable pub close : UpdateEnv → ℕ → Round → Round
unfolding mark_batched
close env place r = record (mark_batched place r) { full = leb env.n_batch (length r.batch) }

unfoldable pub settle_continued : UpdateEnv → ℕ → ℕ → Task → Round → Continued → Result Round
unfolding close
settle_continued env now place task r waits = ok r
settle_continued env now place task r (media_failed slot1) =
    release_slot now place slot1 (refuse task.info server r)
settle_continued env now place task r (continued f) = ok (
    close env place (record (put_slot place f.slot r) {
      batch = f.batch;
      alora_scale = f.alora_scale;
      alora_disabled_id = f.alora_disabled_id;
    }))

unfoldable pub filling : Slot → Round → Filling
filling slot r = record {
  slot = slot;
  batch = r.batch;
  alora_scale = r.alora_scale;
  alora_disabled_id = r.alora_disabled_id;
}

unfoldable pub go : UpdateEnv → ℕ → ℕ → Going → Result Round
unfolding settle_continued filling
go env now place (leave r) = ok r
go env now place (pass r) = ok (close env place r)
go env now place (go_on slot task r) =
    continue_prompt env task (filling slot r) >>= settle_continued env now place task r

unfoldable pub prompt_at : UpdateEnv → ℕ → ℕ → Slot → Round → Result Round
unfolding begin_in go
prompt_at env now place slot r =
    if r.full || not (is_processing slot)
    then ok r
    else (joins r slot >>= λ joined.
        if not joined
        then ok r
        else (begin_in env now place slot r slot.state >>= go env now place))

unfoldable pub add_prompts : UpdateEnv → ℕ → Round → Result Round
unfolding prompt_at
add_prompts env now r =
    if env.cont_batching || length r.batch == 0 then for_slots (prompt_at env now) r else ok r

enable : List LoraInfo → ℕ → ℤ → List LoraInfo
enable ls id scale = elim (get_elem? ls id) [
  | none ↦ ls
  | some l ↦ set ls id (record l { scale = scale })
]

unfoldable pub enable_at : Round → ℕ → Round
unfolding enable
enable_at r place =
    let s = r.server in
    elim (get_elem? s.slots place) [
      | none ↦ r
      | some slot ↦
          put_slot place (record slot { lora = enable slot.lora r.alora_disabled_id r.alora_scale })
            r
    ]

-- The adapter that was disabled for the batch is enabled again, in the first slot of the batch.
unfoldable pub enable_alora : Round → Round
unfolding enable_at
enable_alora r = elim r.slot_batched [
  | none ↦ r
  | some place ↦ if is_positive r.alora_scale then enable_at r place else r
]

-- The batch of a round, from the slots.
unfoldable pub build_batch : UpdateEnv → ℕ → Round → Result Round
unfolding shift_at sampled_at add_prompts enable_alora
build_batch env now r =
    for_slots (shift_at env now) r >>= for_slots (sampled_at env) >>= add_prompts env now >>= λ r1.
    ok (enable_alora r1)
