-- ===== src/Update/Round/Paired.antt =====
-- core/src/server/server-context.cpp, update_slots: what the operations on a round keep.
use llama_go.Base.{
  ℕ, zero, suc, ◌≡◌, ◌∙◌, inl, inr, Bool, true, false, some, List, length, get_elem?, length-set, ℤ,
  Result, ok, bind_ok, ok_subst, Option-cases,
}
use llama_go.Task.{Task, TaskInfo, Payload, ErrorType}
use llama_go.Slots.{Slot, release, send_result, send_error}
use llama_go.Slots.Paired.{IsPaired, AllPaired, All-set, release-IsPaired}
use llama_go.Update.{BatchToken}
use llama_go.Update.Round.{
  Round, from_place, for_slots, put_slot, with_task, release_slot, answer, refuse, send_progress,
  send_final_response,
}

-- What each round of a loop over the slots keeps, the loop keeps.
module _ (P : Round → Type 0) (action : ℕ → Slot → Round → Result Round)
    (keeps : (place : ℕ) (slot : Slot) (r r' : Round)
      → P r
      → get_elem? r.server.slots place ≡ some slot
      → action place slot r ≡ ok r'
      → P r') where
  from_place_keeps :
      (left place : ℕ) (r r' : Round) → P r → from_place action left place r ≡ ok r' → P r'
  unfolding from_place
  from_place_keeps zero place r r' h e = ok_subst P r r' e h
  from_place_keeps (suc left) place r r' h e =
      elim (Option-cases (get_elem? r.server.slots place)) [
        | inl n ↦ absurd (cc (rw (n, from_place) at e))
        | inr (slot, n) ↦
            let (r1, f, e1) = bind_ok (action place slot r) _ r' (rw (n, from_place) at e) in
            from_place_keeps left (suc place) r1 r' (keeps place slot r r1 h n f) e1
      ]

  pub for_slots_keeps : (r r' : Round) → P r → for_slots action r ≡ ok r' → P r'
  unfolding for_slots
  for_slots_keeps r r' h e = from_place_keeps (length r.server.slots) 0 r r' h e

-- Each slot is busy exactly while it has a task, the batch is this one, and there are so many slots.
abbrev pub Steady : List BatchToken → ℕ → Round → Type 0
Steady b n r = AllPaired r.server × (r.batch ≡ b) × (length r.server.slots ≡ n)

pub put_slot-Steady :
    (b : List BatchToken) (n place : ℕ) (slot : Slot) (r : Round)
    → IsPaired slot
    → Steady b n r
    → Steady b n (put_slot place slot r)
unfolding put_slot
put_slot-Steady b n place slot r p (h, k, l) =
    (All-set IsPaired r.server.slots place slot h p, k, length-set r.server.slots place slot ∙ l)

pub release_slot-Steady :
    (b : List BatchToken) (n now place : ℕ) (slot : Slot) (r r' : Round)
    → IsPaired slot
    → Steady b n r
    → release_slot now place slot r ≡ ok r'
    → Steady b n r'
unfolding release_slot
release_slot-Steady b n now place slot r r' p (h, k, l) e =
    let (x, f, g) = bind_ok (release now r.server.queue_tasks slot) _ r' e in
    let paired = release-IsPaired now r.server.queue_tasks x.0 slot x.1 p f in
    ok_subst (Steady b n) _ r' g (
      All-set IsPaired r.server.slots place x.1 h paired,
      k,
      length-set r.server.slots place x.1 ∙ l,
    )

pub answer-Steady :
    (b : List BatchToken) (n : ℕ) (task : TaskInfo) (id_slot : ℤ) (payload : Payload) (r : Round)
    → Steady b n r
    → Steady b n (answer task id_slot payload r)
unfolding answer send_result
answer-Steady b n task id_slot payload r h = h

pub refuse-Steady :
    (b : List BatchToken) (n : ℕ) (task : TaskInfo) (e : ErrorType) (r : Round)
    → Steady b n r
    → Steady b n (refuse task e r)
unfolding refuse send_error send_result
refuse-Steady b n task e r h = h

pub send_progress-Steady :
    (b : List BatchToken) (n : ℕ) (task : Task) (wanted : Bool) (r : Round)
    → Steady b n r
    → Steady b n (send_progress task wanted r)
unfolding send_progress answer send_result
send_progress-Steady b n task true r h = h
send_progress-Steady b n task false r h = h

pub send_final-Steady :
    (b : List BatchToken) (n : ℕ) (slot : Slot) (task : Task) (r : Round)
    → Steady b n r
    → Steady b n (send_final_response slot task r)
unfolding send_final_response answer send_result
send_final-Steady b n slot task r h = h

-- A task pointer that is followed without a failure.
pub with_task_ok :
    (slot : Slot) (next : Task → Result Round) (r : Round)
    → with_task slot next ≡ ok r
    → (task : Task) × (slot.task ≡ some task) × (next task ≡ ok r)
unfolding with_task
with_task_ok slot next r e = elim (Option-cases slot.task) [
  | inl n ↦ absurd (cc (rw (n, with_task) at e))
  | inr (task, n) ↦ (task, n, rw (n, with_task) at e)
]
