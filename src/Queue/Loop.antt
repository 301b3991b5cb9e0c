-- ===== src/Queue/Loop.antt =====
-- core/src/server/server-queue.cpp, server_queue::start_loop, and what other threads do to the queue
-- meanwhile. What the loop does between two releases of the mutex is one step; an event is a step of
-- the loop or an operation of another thread (or of a callback of the loop, which has no mutex then).
pub mod Sleep
use llama_go.Base.{
  ℕ, ◌-◌, Bool, true, false, not, ◌||◌, List, [], ◌∷◌, leb, if◌then◌else◌, ℤ, pos, negsuc, ok, err,
}
use llama_go.Task.{Task}
use llama_go.Queue.{
  Queue, post, post_tasks, defer, get_new_id, pop_deferred_task, terminate, request_no_sleep,
}

-- Where the loop stands: about to look at the queue, in callback_new_task or callback_update_slots,
-- about to look whether it may wait, in the wait with a time limit, in the wait of the sleep, or left.
pub data Phase : Type 0 where
  taking : Phase
  handling : Task → Phase
  updating idle blocked asleep stopped : Phase

pub record LoopState : Type 0 where
  pub queue : Queue
  pub phase : Phase

-- start_loop up to its `while`.
unfoldable pub start : Queue → ℕ → LoopState
start q now = record { queue = record q { running = true; time_last_task = now }; phase = taking }

should_sleep : ℤ → Queue → ℕ → Bool
should_sleep (pos idle_ms) q now = leb idle_ms (now - q.time_last_task)
should_sleep (negsuc n) q now = false

pub is_empty : List Task → Bool
is_empty [] = true
is_empty (t ∷ ts) = false

take_step : Queue → List Task → LoopState
take_step q [] = record { queue = q; phase = updating }
take_step q (t ∷ ts) = record { queue = record q { queue_tasks = ts }; phase = handling t }

enter_sleep : Queue → LoopState
enter_sleep q = record {
  queue = record q { sleeping = true; req_stop_sleeping = false };
  phase = asleep;
}

leave_sleep : Queue → ℕ → LoopState
leave_sleep q now = record {
  queue = record q { req_stop_sleeping = false; sleeping = false; time_last_task = now };
  phase = taking;
}

-- One step of the loop in its phase; a loop that has to wait stays as it is. `timed_out` tells
-- whether the wait with a time limit has run out. Time is taken not to run backwards.
step_in : Phase → ℤ → ℕ → Bool → Queue → LoopState
unfolding take_step should_sleep enter_sleep leave_sleep is_empty
step_in taking idle_ms now timed_out q =
    if not q.running then record { queue = q; phase = stopped } else take_step q q.queue_tasks
step_in (handling t) idle_ms now timed_out q = record { queue = q; phase = taking }
step_in updating idle_ms now timed_out q = record {
  queue = record q { time_last_task = now };
  phase = idle;
}
step_in idle idle_ms now timed_out q =
    if not q.running || not (is_empty q.queue_tasks)
    then record { queue = q; phase = taking }
    else (if should_sleep idle_ms q now
        then enter_sleep q
        else record { queue = q; phase = blocked })
step_in blocked idle_ms now timed_out q =
    if not (is_empty q.queue_tasks) || not q.running
    then record { queue = q; phase = taking }
    else record { queue = q; phase = if timed_out then idle else blocked }
step_in asleep idle_ms now timed_out q =
    if not q.running
    then record { queue = q; phase = taking }
    else (if q.req_stop_sleeping then leave_sleep q now else record { queue = q; phase = asleep })
step_in stopped idle_ms now timed_out q = record { queue = q; phase = stopped }

pub advance : ℤ → ℕ → Bool → LoopState → LoopState
unfolding step_in
advance idle_ms now timed_out s = step_in s.phase idle_ms now timed_out s.queue

pub data Op : Type 0 where
  posts : Task → Bool → ℕ → Op
  posts_all : List Task → Bool → ℕ → Op
  defers : Task → ℕ → Op
  takes_id : Op
  pops : ℤ → ℕ → Op
  requests_no_sleep : Op
  terminates : Op

-- A post that the assertion refuses ends the process; the queue is left as it was.
pub apply_op : Queue → Op → Queue
unfolding post post_tasks defer get_new_id pop_deferred_task request_no_sleep terminate
apply_op q (posts t front now) = elim (post q t front now) [ ok r ↦ r.0 | err e ↦ q ]
apply_op q (posts_all ts front now) = post_tasks q ts front now
apply_op q (defers t now) = defer q t now
apply_op q takes_id = (get_new_id q).0
apply_op q (pops id_slot now) = pop_deferred_task q id_slot now
apply_op q requests_no_sleep = (request_no_sleep q).0
apply_op q terminates = terminate q

pub data Event : Type 0 where
  loop : (now : ℕ) (timed_out : Bool) → Event
  other : Op → Event

pub apply : ℤ → LoopState → Event → LoopState
unfolding advance apply_op
apply idle_ms s (loop now timed_out) = advance idle_ms now timed_out s
apply idle_ms s (other op) = record s { queue = apply_op s.queue op }

pub run : ℤ → LoopState → List Event → LoopState
run idle_ms s [] = s
run idle_ms s (e ∷ es) = run idle_ms (apply idle_ms s e) es
