-- ===== src/Update/Round.antt =====
-- core/src/server/server-context.cpp, update_slots: the state of a round, the loop over the slots, and the
-- responses that are sent from it.
pub mod Paired
use llama_go.Base.{
  ℕ, zero, suc, Bool, true, false, Option, none, some, List, [], ◌∷◌, if◌then◌else◌, length,
  get_elem?, set, ℤ, pos, minus_one, Result, ok, err, out_of_bounds, ◌>>=◌,
}
use llama_go.Task.{Task, TaskInfo, TaskResult, Payload, ErrorType, cmpl_partial, cmpl_final}
use llama_go.Slots.{Slot, Server, release, send_result, send_error}
use llama_go.Update.{BatchToken}

-- The server, the batch, the place of the first slot in the batch, and the adapter that was disabled.
pub record Round : Type 0 where
  pub server : Server
  pub batch : List BatchToken
  pub slot_batched : Option ℕ
  pub alora_scale : ℤ
  pub alora_disabled_id : ℕ
  -- The loop over the prompts was left.
  pub full : Bool

-- for (auto & slot : slots), from a place on.
unfoldable pub from_place : (ℕ → Slot → Round → Result Round) → ℕ → ℕ → Round → Result Round
from_place action zero place r = ok r
from_place action (suc left) place r =
    let s = r.server in
    let next = from_place action left (suc place) in
    elim (get_elem? s.slots place) [
      | none ↦ err out_of_bounds
      | some slot ↦ (action place slot r >>= next)
    ]

unfoldable pub for_slots : (ℕ → Slot → Round → Result Round) → Round → Result Round
unfolding from_place
for_slots action r = let s = r.server in from_place action (length s.slots) 0 r

unfoldable pub put_slot : ℕ → Slot → Round → Round
put_slot place slot r =
    let s = r.server in record r { server = record s { slots = set s.slots place slot } }

-- A task pointer is followed; it is null if the slot has no task.
unfoldable pub with_task : Slot → (Task → Result Round) → Result Round
with_task slot next = elim slot.task [ none ↦ err out_of_bounds | some task ↦ next task ]

-- slot.release()
unfoldable pub release_slot : ℕ → ℕ → Slot → Round → Result Round
release_slot now place slot r =
    let s = r.server in
    release now s.queue_tasks slot >>= λ (q, slot1).
    ok (record r { server = record s { queue_tasks = q; slots = set s.slots place slot1 } })

unfoldable pub answer : TaskInfo → ℤ → Payload → Round → Round
answer task id_slot payload r = record r {
  server =
      send_result r.server
        (record { id = task.id; id_slot = id_slot; index = task.index; payload = payload });
}

unfoldable pub refuse : TaskInfo → ErrorType → Round → Round
refuse task e r = record r { server = send_error r.server task e }

-- send_partial_response with the progress of the prompt, where the client asked for it.
unfoldable pub send_progress : Task → Bool → Round → Round
unfolding answer
send_progress task wanted r = if wanted then answer task.info minus_one (cmpl_partial []) r else r

unfoldable pub final_text : Slot → Task → List ℕ
final_text slot task = let params = task.params in if params.stream then [] else slot.generated_text

unfoldable pub send_final_response : Slot → Task → Round → Round
unfolding answer final_text
send_final_response slot task r =
    answer task.info (pos slot.id) (cmpl_final (final_text slot task)) r
