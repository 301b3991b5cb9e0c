-- ===== src/Response.antt =====
-- core/src/server/server-queue.h and server-queue.cpp, server_response: the results that wait for
-- their readers. The unordered set of waiting ids is a list that holds each id once. Each operation
-- holds the mutex from its start to its end (recv and recv_with_timeout: between their waits).
pub mod Delivery
pub mod Stale
use llama_go.Base.{
  ℕ, Bool, true, false, not, Option, none, some, List, [], ◌∷◌, ◌++◌, if◌then◌else◌, keep, any,
  extract, ℤ, ◌==ℤ◌,
}
use llama_go.Task.{TaskResult}

pub record Response : Type 0 where
  pub running : Bool
  pub waiting_task_ids : List ℤ
  pub queue_results : List TaskResult

abbrev pub initial : Response
initial = record { running = true; waiting_task_ids = []; queue_results = [] }

unfoldable pub contains : List ℤ → ℤ → Bool
contains ids i = any (λ j. j ==ℤ i) ids

-- unordered_set::insert
unfoldable pub insert : ℤ → List ℤ → List ℤ
unfolding contains
insert i ids = if contains ids i then ids else i ∷ ids

-- unordered_set::erase
unfoldable pub erase : ℤ → List ℤ → List ℤ
erase i ids = keep (λ j. not (j ==ℤ i)) ids

unfoldable pub add_waiting_task_id : Response → ℤ → Response
unfolding insert
add_waiting_task_id r i = record r { waiting_task_ids = insert i r.waiting_task_ids }

unfoldable pub add_waiting_task_ids : Response → List ℤ → Response
unfolding add_waiting_task_id
add_waiting_task_ids r [] = r
add_waiting_task_ids r (i ∷ is) = add_waiting_task_ids (add_waiting_task_id r i) is

unfoldable pub result_of : ℤ → TaskResult → Bool
result_of i x = x.id ==ℤ i

unfoldable pub remove_waiting_task_id : Response → ℤ → Response
unfolding erase result_of
remove_waiting_task_id r i = record r {
  waiting_task_ids = erase i r.waiting_task_ids;
  queue_results = keep (λ x. not (result_of i x)) r.queue_results;
}

unfoldable pub remove_waiting_task_ids : Response → List ℤ → Response
unfolding erase
remove_waiting_task_ids r [] = r
remove_waiting_task_ids r (i ∷ is) =
    remove_waiting_task_ids (record r { waiting_task_ids = erase i r.waiting_task_ids }) is

unfoldable pub send : Response → TaskResult → Response
unfolding contains
send r x =
    if contains r.waiting_task_ids x.id
    then record r { queue_results = r.queue_results ++ x ∷ [] }
    else r

unfoldable pub terminate : Response → Response
terminate r = record r { running = false }

unfoldable pub wanted : List ℤ → TaskResult → Bool
unfolding contains
wanted ids x = contains ids x.id

-- The scan of recv and recv_with_timeout: the first result for one of the ids is taken out.
unfoldable pub take_result : Response → List ℤ → Option (TaskResult × Response)
unfolding wanted
take_result r ids = elim (extract (wanted ids) r.queue_results) [
  | none ↦ none
  | some (x, rest) ↦ some (x, record r { queue_results = rest })
]

-- What is left when another reader has looked for a result.
unfoldable pub taken : Response → List ℤ → Response
unfolding take_result
taken r ids = elim (take_result r ids) [ none ↦ r | some (x, r') ↦ r' ]

-- What other threads do while the caller waits.
pub data Op : Type 0 where
  sends : TaskResult → Op
  adds : List ℤ → Op
  removes : ℤ → Op
  removes_all : List ℤ → Op
  -- Another reader takes a result.
  takes : List ℤ → Op
  terminates : Op

unfoldable pub apply : Response → Op → Response
unfolding send add_waiting_task_ids remove_waiting_task_id remove_waiting_task_ids taken terminate
apply r (sends x) = send r x
apply r (adds is) = add_waiting_task_ids r is
apply r (removes i) = remove_waiting_task_id r i
apply r (removes_all is) = remove_waiting_task_ids r is
apply r (takes is) = taken r is
apply r terminates = terminate r

unfoldable pub apply_all : Response → List Op → Response
unfolding apply
apply_all r [] = r
apply_all r (op ∷ ops) = apply_all (apply r op) ops

-- One wait on the condition variable: what happens during it, and whether its time ran out.
pub record Wait : Type 0 where
  pub ops : List Op
  pub timed_out : Bool

-- `terminated` is std::terminate; `waiting` means that the waits given are over and the caller still
-- waits.
pub data Received : Type 0 where
  received : TaskResult → Response → Received
  timeout : Response → Received
  terminated : Received
  waiting : Response → Received

unfoldable pub recv_with_timeout : List ℤ → Response → List Wait → Received
unfolding take_result apply_all
recv_with_timeout ids r [] = elim (take_result r ids) [
  | none ↦ waiting r
  | some (x, r') ↦ received x r'
]
recv_with_timeout ids r (w ∷ ws) =
    let r1 = apply_all r w.ops in
    let again = recv_with_timeout ids r1 ws in
    elim (take_result r ids) [
      | some (x, r') ↦ received x r'
      | none ↦ if not r1.running then terminated else (if w.timed_out then timeout r1 else again)
    ]

-- recv, with what other threads do in each of its waits; the flag is read before the results.
unfoldable pub recv : List ℤ → Response → List (List Op) → Received
unfolding take_result apply_all
recv ids r [] =
    if not r.running
    then terminated
    else elim (take_result r ids) [ none ↦ waiting r | some (x, r') ↦ received x r' ]
recv ids r (ops ∷ rest) =
    let again = recv ids (apply_all r ops) rest in
    if not r.running
    then terminated
    else elim (take_result r ids) [ none ↦ again | some (x, r') ↦ received x r' ]

-- The other recv, for a single id.
pub recv_one : ℤ → Response → List (List Op) → Received
recv_one i = recv (i ∷ [])
