-- ===== src/Queue.antt =====
-- core/src/server/server-queue.h and server-queue.cpp, server_queue: the tasks that wait for the main
-- loop, and those that were deferred until a slot is free. Each operation holds the mutex from its
-- start to its end, so it is one step; time is an argument. A wake-up by the condition variable is no
-- part of the state: a waiting thread may look at its condition at any time.
pub mod Cancel
pub mod CancelBatch
pub mod Deferred
pub mod Fresh
pub mod Loop
use llama_go.Base.{
  ℕ, suc, ◌+◌, Bool, true, false, not, Option, none, some, List, [], ◌∷◌, ◌++◌, if◌then◌else◌, keep,
  extract, ℤ, pos, minus_one, ◌==ℤ◌, Result, ok, err, assert_failed,
}
use llama_go.Task.{Task, TaskType, cancel, completion, embedding}

-- `id` is the source's int counter, which is taken not to overflow.
pub record Queue : Type 0 where
  pub id : ℕ
  pub running : Bool
  pub sleeping : Bool
  pub req_stop_sleeping : Bool
  pub time_last_task : ℕ
  pub queue_tasks : List Task
  pub queue_tasks_deferred : List Task

-- A new server_queue.
abbrev pub initial : Queue
initial = record {
  id = 0;
  running = false;
  sleeping = false;
  req_stop_sleeping = false;
  time_last_task = 0;
  queue_tasks = [];
  queue_tasks_deferred = [];
}

unfoldable pub has_id : ℤ → Task → Bool
has_id i t = t.id ==ℤ i

abbrev not_target : ℤ → Task → Bool
not_target i t = not (has_id i t)

unfoldable pub cleanup_pending_task : Queue → ℤ → Queue
cleanup_pending_task q id_target = record q {
  queue_tasks = keep (not_target id_target) q.queue_tasks;
  queue_tasks_deferred = keep (not_target id_target) q.queue_tasks_deferred;
}

abbrev pub is_cancel : TaskType → Bool
is_cancel cancel = true
is_cancel _ = false

-- The pending tasks that a cancel task names are removed when it is posted.
unfoldable pub clean : Queue → Task → Queue
unfolding cleanup_pending_task
clean q task = if is_cancel task.type then cleanup_pending_task q task.id_target else q

unfoldable pub push : Queue → Task → Bool → Queue
push q task front = record q {
  queue_tasks = if front then task ∷ q.queue_tasks else q.queue_tasks ++ task ∷ [];
}

-- post(server_task &&, bool)
unfoldable pub post : Queue → Task → Bool → ℕ → Result (Queue × ℤ)
unfolding clean push
post q task front now =
    if task.id ==ℤ minus_one
    then err assert_failed
    else (let q' = push (clean q task) task front in
        ok (record q' { time_last_task = now }, task.id))

unfoldable pub renumber : Task → ℕ → Task
renumber task n = let i = task.info in record task { info = record i { id = pos n } }

-- The id that a task of a batch gets.
unfoldable pub number : Queue → Task → Queue × Task
unfolding renumber
number q task =
    if task.id ==ℤ minus_one then (record q { id = suc q.id }, renumber task q.id) else (q, task)

unfoldable pub post_each : Queue → List Task → Bool → Queue
unfolding number clean push
post_each q [] front = q
post_each q (t ∷ ts) front =
    let (q', t') = number q t in post_each (push (clean q' t') t' front) ts front

-- post(std::vector<server_task> &&, bool)
unfoldable pub post_tasks : Queue → List Task → Bool → ℕ → Queue
unfolding post_each
post_tasks q tasks front now =
    let q' = post_each q tasks front in record q' { time_last_task = now }

unfoldable pub defer : Queue → Task → ℕ → Queue
defer q task now = record q {
  queue_tasks_deferred = q.queue_tasks_deferred ++ task ∷ [];
  time_last_task = now;
}

unfoldable pub get_new_id : Queue → Queue × ℤ
get_new_id q = (record q { id = suc q.id }, pos q.id)

unfoldable pub uses_slot : ℤ → Task → Bool
uses_slot id_slot t = t.id_slot ==ℤ id_slot

-- The deferred task that is moved to the main queue: the first that names the slot, else the first.
unfoldable pub pop_first : List Task → ℤ → Option (Task × List Task)
pop_first [] id_slot = none
pop_first (t ∷ ts) id_slot = elim (extract (uses_slot id_slot) (t ∷ ts)) [
  | none ↦ some (t, ts)
  | some r ↦ some r
]

unfoldable pub pop_deferred_task : Queue → ℤ → ℕ → Queue
unfolding pop_first
pop_deferred_task q id_slot now = elim (pop_first q.queue_tasks_deferred id_slot) [
  | none ↦ record q { time_last_task = now }
  | some (t, rest) ↦ record q {
    queue_tasks = t ∷ q.queue_tasks;
    queue_tasks_deferred = rest;
    time_last_task = now;
  }
]

unfoldable pub terminate : Queue → Queue
terminate q = record q { running = false }

-- What wait_until_no_sleep does before it waits; the Boolean tells whether the caller may go on.
unfoldable pub request_no_sleep : Queue → Queue × Bool
request_no_sleep q =
    if not q.sleeping then (q, true) else (record q { req_stop_sleeping = true }, false)

-- Whether a caller that waits in wait_until_no_sleep may go on.
unfoldable pub may_proceed : Queue → Bool
may_proceed q = not q.sleeping
