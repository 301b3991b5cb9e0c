-- ===== src/Queue/Loop/Sleep.antt =====
-- core/src/server/server-queue.cpp, server_queue::start_loop, wait_until_no_sleep and terminate: the
-- sleep of the main loop and its end, over every interleaving with other threads.
use llama_go.Base.{
  ℕ, suc, ◌-◌, ◌≤◌, ◌≡◌, refl, sym, ◌∙◌, ◌⊎◌, inl, inr, ◌≢◌, Bool, true, false, List, [], ◌∷◌, ◌++◌,
  arith, ℤ, negsuc,
}
use llama_go.Task.{Task}
use llama_go.Queue.{Queue, clean, push, number, post_each, may_proceed}
use llama_go.Queue.Loop.{
  Phase, taking, updating, asleep, stopped, LoopState, advance, Op, posts, posts_all, defers,
  takes_id, pops, requests_no_sleep, terminates, apply_op, Event, loop, other, apply, run,
}

-- Two queues agree on what controls the loop.
record SameFlags (q r : Queue) : Type 0 where
  running : r.running ≡ q.running
  sleeping : r.sleeping ≡ q.sleeping
  requested : r.req_stop_sleeping ≡ q.req_stop_sleeping

round-SameFlags :
    (q : Queue) (t : Task) (front : Bool)
    → SameFlags q (push (clean (number q t).0 (number q t).1) (number q t).1 front)
unfolding push clean number
round-SameFlags q t front = ground arith

post_each-SameFlags :
    (q : Queue) (ts : List Task) (front : Bool) → SameFlags q (post_each q ts front)
unfolding post_each
post_each-SameFlags q [] front = record { running = refl; sleeping = refl; requested = refl }
post_each-SameFlags q (t ∷ ts) front =
    let a = round-SameFlags q t front in
    let b =
      post_each-SameFlags (push (clean (number q t).0 (number q t).1) (number q t).1 front) ts
        front in
    record {
      running = b.running ∙ a.running;
      sleeping = b.sleeping ∙ a.sleeping;
      requested = b.requested ∙ a.requested;
    }

-- What an operation of another thread does to the flags.
record OpFlags (q r : Queue) (op : Op) : Type 0 where
  sleeping : r.sleeping ≡ q.sleeping
  requested : q.req_stop_sleeping ≡ true → r.req_stop_sleeping ≡ true
  running : op ≢ terminates → r.running ≡ q.running
  stays_stopped : q.running ≡ false → r.running ≡ false

apply_op-OpFlags : (q : Queue) (op : Op) → OpFlags q (apply_op q op) op
unfolding apply_op
apply_op-OpFlags q (posts t front now) = ground arith
apply_op-OpFlags q (posts_all ts front now) = ground (arith, post_each-SameFlags q ts front)
apply_op-OpFlags q (defers t now) = ground arith
apply_op-OpFlags q takes_id = ground arith
apply_op-OpFlags q (pops id_slot now) = ground arith
apply_op-OpFlags q requests_no_sleep = ground arith
apply_op-OpFlags q terminates = ground arith

-- How many steps the loop still takes when it is no longer to run.
abbrev rank : Phase → ℕ
rank stopped = 0
rank taking = 1
rank updating = 3
rank _ = 2

advance-rank :
    (idle_ms : ℤ) (now : ℕ) (timed_out : Bool) (s : LoopState)
    → s.queue.running ≡ false
    → ((advance idle_ms now timed_out s).queue.running ≡ false)
      × (rank (advance idle_ms now timed_out s).phase ≤ rank s.phase - 1)
unfolding advance
advance-rank idle_ms now timed_out s h = ground arith

abbrev pub loop_steps : List Event → ℕ
loop_steps [] = 0
loop_steps (loop now timed_out ∷ es) = suc (loop_steps es)
loop_steps (other op ∷ es) = loop_steps es

rank_zero : (p : Phase) → rank p ≡ 0 → p ≡ stopped
rank_zero p h = ground arith

run-rank :
    (idle_ms : ℤ) (s : LoopState) (es : List Event)
    → s.queue.running ≡ false
    → rank (run idle_ms s es).phase ≤ rank s.phase - loop_steps es
unfolding run apply
run-rank idle_ms s [] h = omega arith
run-rank idle_ms s (loop now timed_out ∷ es) h =
    let (stopped_still, less) = advance-rank idle_ms now timed_out s h in
    omega (arith, less, run-rank idle_ms (advance idle_ms now timed_out s) es stopped_still)
run-rank idle_ms s (other op ∷ es) h =
    run-rank idle_ms (record s { queue = apply_op s.queue op }) es
      ((apply_op-OpFlags s.queue op).stays_stopped h)

rank_le : (p : Phase) → rank p ≤ 3
rank_le p = ground arith

-- Once the queue is told to terminate, the main loop is left within three of its steps, wherever it
-- stands (asleep too) and whatever other threads do in between.
pub run-stopped :
    (idle_ms : ℤ) (s : LoopState) (es : List Event)
    → s.queue.running ≡ false
    → 3 ≤ loop_steps es
    → (run idle_ms s es).phase ≡ stopped
run-stopped idle_ms s es h k = rank_zero _ (omega (arith, run-rank idle_ms s es h, rank_le s.phase))

-- The loop sleeps only where it says so, and the sleeping flag is left set only when the loop was
-- told to terminate.
pub record IsTruthful (s : LoopState) : Type 0 where
  pub says : s.phase ≡ asleep → s.queue.sleeping ≡ true
  pub meant : s.queue.sleeping ≡ true → (s.phase ≡ asleep) ⊎ (s.queue.running ≡ false)

advance-IsTruthful :
    (idle_ms : ℤ) (now : ℕ) (timed_out : Bool) (s : LoopState)
    → IsTruthful s
    → IsTruthful (advance idle_ms now timed_out s)
unfolding advance
advance-IsTruthful idle_ms now timed_out s v = ground arith

op-IsTruthful :
    (s : LoopState) (op : Op) → IsTruthful s → IsTruthful (record s { queue = apply_op s.queue op })
op-IsTruthful s op v =
    let f = apply_op-OpFlags s.queue op in
    record {
      says = λ h. f.sleeping ∙ v.says h;
      meant = λ h. elim (v.meant (sym f.sleeping ∙ h)) [
        | inl a ↦ inl a
        | inr b ↦ inr (f.stays_stopped b)
      ];
    }

-- However other threads interleave with the loop, the sleeping flag tells the truth: it is set
-- whenever the loop is asleep, and if it is set the loop is asleep or was told to terminate.
pub run-IsTruthful :
    (idle_ms : ℤ) (s : LoopState) (es : List Event) → IsTruthful s → IsTruthful (run idle_ms s es)
unfolding run apply
run-IsTruthful idle_ms s [] v = v
run-IsTruthful idle_ms s (loop now timed_out ∷ es) v =
    run-IsTruthful idle_ms (advance idle_ms now timed_out s) es
      (advance-IsTruthful idle_ms now timed_out s v)
run-IsTruthful idle_ms s (other op ∷ es) v =
    run-IsTruthful idle_ms (record s { queue = apply_op s.queue op }) es (op-IsTruthful s op v)

advance-keeps_sleeping :
    (idle_ms : ℤ) (now : ℕ) (timed_out : Bool) (s : LoopState)
    → s.queue.running ≡ false
    → s.queue.sleeping ≡ true
    → (advance idle_ms now timed_out s).queue.sleeping ≡ true
unfolding advance
advance-keeps_sleeping idle_ms now timed_out s h k = ground arith

-- If the queue is told to terminate while the loop is asleep, a thread that waits in
-- wait_until_no_sleep waits for ever: whatever happens next, it may not proceed.
pub terminate-hangs_waiters :
    (idle_ms : ℤ) (s : LoopState) (es : List Event)
    → s.queue.running ≡ false
    → s.queue.sleeping ≡ true
    → may_proceed (run idle_ms s es).queue ≡ false
unfolding run apply may_proceed
terminate-hangs_waiters idle_ms s [] h k = rw k
terminate-hangs_waiters idle_ms s (loop now timed_out ∷ es) h k =
    terminate-hangs_waiters idle_ms (advance idle_ms now timed_out s) es
      (advance-rank idle_ms now timed_out s h).0
      (advance-keeps_sleeping idle_ms now timed_out s h k)
terminate-hangs_waiters idle_ms s (other op ∷ es) h k =
    let f = apply_op-OpFlags s.queue op in
    terminate-hangs_waiters idle_ms (record s { queue = apply_op s.queue op }) es
      (f.stays_stopped h) (f.sleeping ∙ k)

-- Operations of other threads, none of which tells the queue to terminate.
abbrev pub NoTerminate : List Op → Type 0
NoTerminate [] = Unit {0}
NoTerminate (op ∷ ops) = (op ≢ terminates) × NoTerminate ops

abbrev pub others : List Op → List Event
others [] = []
others (op ∷ ops) = other op ∷ others ops

advance-wakes :
    (idle_ms : ℤ) (now : ℕ) (timed_out : Bool) (s : LoopState)
    → s.phase ≡ asleep
    → s.queue.running ≡ true
    → s.queue.req_stop_sleeping ≡ true
    → may_proceed (advance idle_ms now timed_out s).queue ≡ true
unfolding advance may_proceed
advance-wakes idle_ms now timed_out s h k r = ground arith

wakes_requested :
    (idle_ms : ℤ) (now : ℕ) (timed_out : Bool) (s : LoopState) (ops : List Op)
    → s.phase ≡ asleep
    → s.queue.running ≡ true
    → s.queue.req_stop_sleeping ≡ true
    → NoTerminate ops
    → may_proceed (run idle_ms s (others ops ++ loop now timed_out ∷ [])).queue ≡ true
unfolding run apply
wakes_requested idle_ms now timed_out s [] h k r n = advance-wakes idle_ms now timed_out s h k r
wakes_requested idle_ms now timed_out s (op ∷ ops) h k r n =
    let f = apply_op-OpFlags s.queue op in
    wakes_requested idle_ms now timed_out (record s { queue = apply_op s.queue op }) ops h
      (f.running n.0 ∙ k) (f.requested r) n.1

request-sets :
    (q : Queue)
    → q.sleeping ≡ true
    → ((apply_op q requests_no_sleep).req_stop_sleeping ≡ true)
      × ((apply_op q requests_no_sleep).running ≡ q.running)
unfolding apply_op
request-sets q h = ground arith

-- A thread that calls wait_until_no_sleep while the loop is asleep may proceed after the next step of
-- the loop, whatever other threads do in between, short of telling the queue to terminate.
pub wait_until_no_sleep-wakes :
    (idle_ms : ℤ) (now : ℕ) (timed_out : Bool) (s : LoopState) (ops : List Op)
    → s.phase ≡ asleep
    → s.queue.sleeping ≡ true
    → s.queue.running ≡ true
    → NoTerminate ops
    → may_proceed
        (run idle_ms s (other requests_no_sleep ∷ others ops ++ loop now timed_out ∷ [])).queue
      ≡ true
unfolding run apply
wait_until_no_sleep-wakes idle_ms now timed_out s ops h k r n =
    let (set, still) = request-sets s.queue k in
    wakes_requested idle_ms now timed_out (record s { queue = apply_op s.queue requests_no_sleep })
      ops h (still ∙ r) set n

advance-never_sleeps :
    (n now : ℕ) (timed_out : Bool) (s : LoopState)
    → s.queue.sleeping ≡ false
    → (advance (negsuc n) now timed_out s).queue.sleeping ≡ false
unfolding advance
advance-never_sleeps n now timed_out s h = ground arith

-- With a negative idle time the loop never sleeps, so no thread has to wait for it.
pub run-never_sleeps :
    (n : ℕ) (s : LoopState) (es : List Event)
    → s.queue.sleeping ≡ false
    → may_proceed (run (negsuc n) s es).queue ≡ true
unfolding run apply may_proceed
run-never_sleeps n s [] h = rw h
run-never_sleeps n s (loop now timed_out ∷ es) h =
    run-never_sleeps n (advance (negsuc n) now timed_out s) es
      (advance-never_sleeps n now timed_out s h)
run-never_sleeps n s (other op ∷ es) h =
    run-never_sleeps n (record s { queue = apply_op s.queue op }) es
      ((apply_op-OpFlags s.queue op).sleeping ∙ h)
