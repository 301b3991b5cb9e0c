-- ===== src/Reader.antt =====
-- core/src/server/server-queue.h and server-queue.cpp, server_response_reader: a client posts its tasks and
-- collects their results. What other threads do in the meantime is an argument.
pub mod Stop
pub mod Collect
use llama_go.Base.{
  ℕ, zero, suc, ◌+◌, Bool, true, false, not, ◌&&◌, ◌||◌, Option, none, some, List, [], ◌∷◌, ◌++◌,
  ltb, ◌==◌, if◌then◌else◌, length, get_elem?, set, replicate, ℤ, minus_one, Result, ok, err,
  assert_failed, ◌>>=◌,
}
use llama_go.Task.{Task, TaskInfo, TaskResult, is_parent, is_error, is_stop, get_list_id}
use llama_go.Queue.{Queue, post}
use llama_go.Queue
use llama_go.Response.{
  Response, Wait, insert, add_waiting_task_id, add_waiting_task_ids, remove_waiting_task_id,
  remove_waiting_task_ids, Received, received, timeout, terminated, waiting, recv_with_timeout,
}

-- Of the states only their number is kept.
pub record Reader : Type 0 where
  pub id_tasks : List ℤ
  pub received_count : ℕ
  pub cancelled : Bool
  pub n_states : ℕ

-- The reader with the queues that it shares with the server.
pub record Client : Type 0 where
  pub reader : Reader
  pub queue_tasks : Queue
  pub queue_results : Response

unfoldable pub post_task : Client → Task → Bool → ℕ → Result Client
post_task c task front now =
    let r = c.reader in
    let i = task.info in
    if not (length r.id_tasks == 0) || is_parent task
    then err assert_failed
    else (post c.queue_tasks (record task { info = record i { index = 0 } }) front now
        >>= λ (q, id). ok (record c {
          reader = record r { id_tasks = insert task.id r.id_tasks; n_states = suc r.n_states };
          queue_tasks = q;
          queue_results = add_waiting_task_id c.queue_results task.id;
        }))

-- The set of the ids in a list.
to_set : List ℤ → List ℤ
to_set [] = []
to_set (i ∷ is) = insert i (to_set is)

number_children : ℕ → List TaskInfo → List TaskInfo
number_children index [] = []
number_children index (t ∷ ts) = record t { index = index } ∷ number_children (suc index) ts

-- The loop over the tasks: each task and each child gets the next index.
unfoldable pub index_tasks : ℕ → List Task → List Task
unfolding number_children
index_tasks index [] = []
index_tasks index (t ∷ ts) =
    let i = t.info in
    record t {
      info = record i { index = index };
      child_tasks = number_children (suc index) t.child_tasks;
    }
    ∷ index_tasks (suc index + length t.child_tasks) ts

count_tasks : List Task → ℕ
count_tasks [] = 0
count_tasks (t ∷ ts) = suc (length t.child_tasks) + count_tasks ts

unfoldable pub post_tasks : Client → List Task → Bool → ℕ → Result Client
unfolding to_set index_tasks count_tasks
post_tasks c tasks front now =
    let r = c.reader in
    let ids = to_set (get_list_id tasks) in
    let n_states = r.n_states + count_tasks tasks in
    if not (length r.id_tasks == 0) || not (n_states == length ids)
    then err assert_failed
    else ok (record c {
      reader = record r { id_tasks = ids; n_states = n_states };
      queue_tasks = llama_go.Queue.post_tasks c.queue_tasks (index_tasks 0 tasks) front now;
      queue_results = add_waiting_task_ids c.queue_results ids;
    })

unfoldable pub has_next : Reader → Bool
has_next r = not r.cancelled && ltb r.received_count (length r.id_tasks)

-- The cancel tasks for the ids, from a new task of type cancel.
unfoldable pub cancel_tasks : Task → List ℤ → List Task
cancel_tasks blank [] = []
cancel_tasks blank (i ∷ is) =
    let t = blank.info in record blank { info = record t { id_target = i } } ∷ cancel_tasks blank is

unfoldable pub remove_each : Response → List ℤ → Response
remove_each q [] = q
remove_each q (i ∷ is) = remove_each (remove_waiting_task_id q i) is

unfoldable pub stop : Task → ℕ → Client → Client
unfolding has_next cancel_tasks remove_each
stop blank now c =
    let r = c.reader in
    let q = remove_waiting_task_ids c.queue_results r.id_tasks in
    if has_next r && not r.cancelled
    then record c {
      reader = record r { cancelled = true };
      queue_tasks =
          llama_go.Queue.post_tasks c.queue_tasks (cancel_tasks blank r.id_tasks) true now;
      queue_results = remove_each q r.id_tasks;
    }
    else record c { queue_results = q }

-- One call of recv_with_timeout: what happens while it waits, what other threads did to the tasks, and what
-- should_stop answers after it.
pub record Poll : Type 0 where
  pub waits : List Wait
  pub tasks : Queue → Queue
  pub should_stop : Bool

-- `stopped` is the null result; `crashed` is std::terminate, and `unfinished` that the polls given are over.
pub data Next : Type 0 where
  got : TaskResult → Client → Next
  stopped : Client → Next
  crashed : Next
  failed : Next
  unfinished : Client → Next

-- What next does with a result.
unfoldable pub take : Task → ℕ → Client → TaskResult → Next
unfolding stop
take blank now c x =
    let r = c.reader in
    if is_error x
    then got x (stop blank now c)
    else (if not (r.n_states == 0) && not (ltb x.index r.n_states)
        then failed
        else got x (
            if is_stop x
            then record c { reader = record r { received_count = suc r.received_count } }
            else c))

unfoldable pub with_results : Client → Poll → Response → Client
with_results c p q = record c { queue_tasks = p.tasks c.queue_tasks; queue_results = q }

-- What next does after one wait; `go` is the rest of its loop.
unfoldable pub after_poll : Task → ℕ → Poll → Client → (Client → Next) → Received → Next
unfolding take with_results
after_poll blank now p c go (received x q) = take blank now (with_results c p q) x
after_poll blank now p c go (timeout q) =
    if p.should_stop then stopped (with_results c p q) else go (with_results c p q)
after_poll blank now p c go terminated = crashed
after_poll blank now p c go (waiting q) = unfinished (with_results c p q)

unfoldable pub next : Task → ℕ → List Poll → Client → Next
unfolding after_poll
next blank now [] c = unfinished c
next blank now (p ∷ ps) c =
    let r = c.reader in
    after_poll blank now p c (next blank now ps)
      (recv_with_timeout r.id_tasks c.queue_results p.waits)

-- The results so far are in the order of the indices.
pub data Batch : Type 0 where
  all_received : List (Option TaskResult) → Client → Batch
  is_terminated : List (Option TaskResult) → Client → Batch
  error_received : TaskResult → Client → Batch
  broken : Batch
  interrupted : Client → Batch

-- A result is put at its index, which must be free.
unfoldable pub collect : List (Option TaskResult) → TaskResult → Option (List (Option TaskResult))
collect results x = elim (get_elem? results x.index) [
  | none ↦ none
  | some o ↦ elim o [ none ↦ some (set results x.index (some x)) | some y ↦ none ]
]

unfoldable pub collected :
    (List (Option TaskResult) → Client → Batch) → Client → Option (List (Option TaskResult)) → Batch
collected go c none = broken
collected go c (some results) = go results c

-- What the loop of wait_for_all does with what next gives; `go` is the rest of the loop.
unfoldable pub settle :
    (List (Option TaskResult) → Client → Batch) → List (Option TaskResult) → Next → Batch
unfolding collect collected
settle go results (got x c) =
    if is_error x then error_received x c else collected go c (collect results x)
settle go results (stopped c) = is_terminated results c
settle go results crashed = broken
settle go results failed = broken
settle go results (unfinished c) = interrupted c

-- The loop of wait_for_all, with the polls of each call of next.
unfoldable pub wait_from : Task → ℕ → List (List Poll) → List (Option TaskResult) → Client → Batch
unfolding has_next next settle
wait_from blank now [] results c =
    if has_next c.reader then interrupted c else all_received results c
wait_from blank now (polls ∷ calls) results c =
    let go = wait_from blank now calls in
    if has_next c.reader then settle go results (next blank now polls c) else all_received results c

unfoldable pub wait_for_all : Task → ℕ → List (List Poll) → Client → Batch
unfolding wait_from
wait_for_all blank now calls c =
    let r = c.reader in wait_from blank now calls (replicate (length r.id_tasks) none) c
