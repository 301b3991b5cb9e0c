-- ===== src/Queue/Fresh.antt =====
-- core/src/server/server-queue.cpp, server_queue::get_new_id and post: the ids that are given out.
use mathlib.Core.List.{Perm, perm_middle, Nodup, Mem, Nodup-cons, mem-cons}
use mathlib.Core.List.Perm
use mathlib.Core.Logic.Or
use mathlib.Core.Logic.{∨₁_prop}
use native.Mathlib.Bridge.{le_prop}
use llama_go.Base.{
  ℕ, suc, ◌<◌, ◌≡◌, refl, ap, sym, ◌∙◌, inl, inr, Bool, true, false, List, [], ◌∷◌, map,
  append_assoc, All, not, keep, keep-append, Bool-cases, arith, ℤ, pos, negsuc, minus_one, ◌==ℤ◌,
  ok,
}
use llama_go.Task.{Task}
use llama_go.Queue.{
  Queue, has_id, cleanup_pending_task, is_cancel, clean, push, renumber, number, post, post_each,
  post_tasks, get_new_id, pop_deferred_task,
}
use llama_go.Queue.Deferred.{pending, pop_deferred_task-perm}

-- The id was given out by a counter that stands at n.
abbrev pub IsBelow : ℕ → ℤ → Type 0
IsBelow n (pos k) = k < n
IsBelow n (negsuc k) = ⊥

abbrev pub ids : List Task → List ℤ
ids = map λ t. t.id

-- The waiting tasks have different ids, all given out before.
pub record IsFresh (q : Queue) : Type 0 where
  pub below : (i : ℤ) → Mem i (ids (pending q)) → IsBelow q.id i
  pub distinct : Nodup (ids (pending q))

IsBelow-prop : (n : ℕ) (i : ℤ) → IsProp (IsBelow n i)
IsBelow-prop n (pos k) = le_prop
IsBelow-prop n (negsuc k) = hlevel

IsBelow-suc : (n : ℕ) (i : ℤ) → IsBelow n i → IsBelow (suc n) i
IsBelow-suc n (pos k) h = omega arith
IsBelow-suc n (negsuc k) h = h

-- Only the waiting tasks and the counter matter.
perm-IsFresh : (q r : Queue) → Perm (pending q) (pending r) → r.id ≡ q.id → IsFresh q → IsFresh r
perm-IsFresh q r p e f =
    let p' = Perm.map (λ (t : Task). t.id) p in
    record {
      below = λ i m. rw e (f.below i ((Perm.mem_iff p').1 m));
      distinct = Perm.nodup p' f.distinct;
    }

-- A task with the next id joins the waiting tasks.
join-IsFresh :
    (q r : Queue) (t : Task)
    → Perm (t ∷ pending q) (pending r)
    → t.id ≡ pos q.id
    → r.id ≡ suc q.id
    → IsFresh q
    → IsFresh r
join-IsFresh q r t p e n f =
    let p' = Perm.map (λ (u : Task). u.id) p in
    record {
      below = λ i m. rw n (
          Or.elim (IsBelow-prop (suc q.id) i) (mem-cons.0 ((Perm.mem_iff p').1 m))
            (λ h. rw (h, e) (omega arith)) (λ h. IsBelow-suc q.id i (f.below i h)));
      distinct =
          Perm.nodup p'
            (Nodup-cons.1 (λ m. absurd (omega (arith, rw e at (f.below t.id m))), f.distinct));
    }

push-perm : (q : Queue) (t : Task) (front : Bool) → Perm (t ∷ pending q) (pending (push q t front))
unfolding push
push-perm q t true = Perm.refl (t ∷ pending q)
push-perm q t false = rw append_assoc (Perm.symm (perm_middle q.queue_tasks q.queue_tasks_deferred))

mem-keep : (p : Task → Bool) (i : ℤ) (ts : List Task) → Mem i (ids (keep p ts)) → Mem i (ids ts)
unfolding keep
mem-keep p i [] m = m
mem-keep p i (t ∷ ts) m = elim (Bool-cases (p t)) [
  | inl h ↦
      mem-cons.1
        (Or.elim ∨₁_prop (mem-cons.0 (rw (h, keep) at m)) Or.inl (λ x. Or.inr (mem-keep p i ts x)))
  | inr h ↦ mem-cons.1 (Or.inr (mem-keep p i ts (rw (h, keep) at m)))
]

Nodup-keep : (p : Task → Bool) (ts : List Task) → Nodup (ids ts) → Nodup (ids (keep p ts))
unfolding keep
Nodup-keep p [] d = d
Nodup-keep p (t ∷ ts) d =
    let d' = Nodup-cons.0 d in
    let rest = Nodup-keep p ts d'.1 in
    elim (Bool-cases (p t)) [
      | inl h ↦ rw (h, keep) (Nodup-cons.1 (λ m. d'.0 (mem-keep p t.id ts m), rest))
      | inr h ↦ rw (h, keep) rest
    ]

cleanup-pending :
    (q : Queue) (i : ℤ)
    → pending (cleanup_pending_task q i) ≡ keep (λ t. not (has_id i t)) (pending q)
unfolding cleanup_pending_task
cleanup-pending q i = sym (keep-append (λ t. not (has_id i t)) q.queue_tasks q.queue_tasks_deferred)

cleanup-id : (q : Queue) (i : ℤ) → (cleanup_pending_task q i).id ≡ q.id
unfolding cleanup_pending_task
cleanup-id q i = refl

cleanup-IsFresh : (q : Queue) (i : ℤ) → IsFresh q → IsFresh (cleanup_pending_task q i)
cleanup-IsFresh q i f = record {
  below = λ j m.
      rw (cleanup-id q i) (
        f.below j (mem-keep (λ t. not (has_id i t)) j (pending q) (rw (cleanup-pending q i) at m)));
  distinct = rw (cleanup-pending q i) (Nodup-keep (λ t. not (has_id i t)) (pending q) f.distinct);
}

clean-IsFresh : (q : Queue) (t : Task) → IsFresh q → IsFresh (clean q t) × ((clean q t).id ≡ q.id)
unfolding clean
clean-IsFresh q t f = elim (Bool-cases (is_cancel t.type)) [
  | inl h ↦ rw (h, clean) (cleanup-IsFresh q t.id_target f, cleanup-id q t.id_target)
  | inr h ↦ rw (h, clean) (f, refl)
]

push-id : (q : Queue) (t : Task) (front : Bool) → (push q t front).id ≡ q.id
unfolding push
push-id q t front = refl

-- The counter does not matter to what is removed.
pending-clean :
    (q : Queue) (n : ℕ) (t : Task) → pending (clean (record q { id = n }) t) ≡ pending (clean q t)
unfolding clean cleanup_pending_task
pending-clean q n t = elim (Bool-cases (is_cancel t.type)) [
  | inl h ↦ rw (h, clean)
  | inr h ↦ rw (h, clean)
]

clean_counter : (q : Queue) (t : Task) → (clean q t).id ≡ q.id
unfolding clean cleanup_pending_task
clean_counter q t = elim (Bool-cases (is_cancel t.type)) [
  | inl h ↦ rw (h, clean)
  | inr h ↦ rw (h, clean)
]

-- A task that has just been given the next id is pushed.
pushed-IsFresh :
    (q : Queue) (t : Task) (front : Bool)
    → t.id ≡ pos q.id
    → IsFresh q
    → IsFresh (push (clean (record q { id = suc q.id }) t) t front)
pushed-IsFresh q t front e f =
    let q1 : Queue = record q { id = suc q.id } in
    let (cf, cid) = clean-IsFresh q t f in
    join-IsFresh (clean q t) (push (clean q1 t) t front) t
      (rw (← pending-clean q (suc q.id) t) (push-perm (clean q1 t) t front)) (rw cid e)
      (push-id (clean q1 t) t front ∙ clean_counter q1 t ∙ ap suc (sym cid)) cf

renumber-id : (t : Task) (n : ℕ) → (renumber t n).id ≡ pos n
unfolding renumber
renumber-id t n = refl

pub number_new :
    (q : Queue) (t : Task)
    → t.id ≡ minus_one
    → number q t ≡ (record q { id = suc q.id }, renumber t q.id)
unfolding number ◌==ℤ◌
number_new q t h = rw (h, number)

post_each-IsFresh :
    (q : Queue) (ts : List Task) (front : Bool)
    → All (λ t. t.id ≡ minus_one) ts
    → IsFresh q
    → IsFresh (post_each q ts front)
unfolding post_each
post_each-IsFresh q [] front h f = f
post_each-IsFresh q (t ∷ ts) front h f = rw (number_new q t h.0) (
    post_each-IsFresh
      (push (clean (record q { id = suc q.id }) (renumber t q.id)) (renumber t q.id) front) ts front
      h.1 (pushed-IsFresh q (renumber t q.id) front (renumber-id t q.id) f))

-- If the waiting tasks have different ids, all given out before, then so have they after a batch of
-- unnumbered tasks of any kinds was posted to either end: the batch gets new ids.
pub post_tasks-IsFresh :
    (q : Queue) (ts : List Task) (front : Bool) (now : ℕ)
    → All (λ t. t.id ≡ minus_one) ts
    → IsFresh q
    → IsFresh (post_tasks q ts front now)
unfolding post_tasks
post_tasks-IsFresh q ts front now h f =
    perm-IsFresh (post_each q ts front) _ (Perm.refl _) refl (post_each-IsFresh q ts front h f)

post-pending :
    (q q' : Queue) (t : Task) (front : Bool) (now : ℕ) (i : ℤ)
    → post q t front now ≡ ok (q', i)
    → (pending (push (clean q t) t front) ≡ pending q') × (q'.id ≡ (push (clean q t) t front).id)
unfolding post
post-pending q q' t front now i e = ground arith

-- If the waiting tasks have different ids, all given out before, then so have they after a task was posted
-- with the id that get_new_id has just given out.
pub post_new-IsFresh :
    (q q' : Queue) (t : Task) (front : Bool) (now : ℕ) (i : ℤ)
    → IsFresh q
    → t.id ≡ (get_new_id q).1
    → post (get_new_id q).0 t front now ≡ ok (q', i)
    → IsFresh q'
unfolding get_new_id
post_new-IsFresh q q' t front now i f h e =
    let (p, n) = post-pending (record q { id = suc q.id }) q' t front now i e in
    perm-IsFresh (push (clean (record q { id = suc q.id }) t) t front) q' (rw p (Perm.refl _)) n
      (pushed-IsFresh q t front h f)

pop_deferred_task-id : (q : Queue) (s : ℤ) (now : ℕ) → (pop_deferred_task q s now).id ≡ q.id
unfolding pop_deferred_task
pop_deferred_task-id q s now = ground arith

-- If the waiting tasks have different ids, all given out before, then so have they after a deferred task was
-- taken up.
pub pop_deferred_task-IsFresh :
    (q : Queue) (s : ℤ) (now : ℕ) → IsFresh q → IsFresh (pop_deferred_task q s now)
pop_deferred_task-IsFresh q s now f =
    perm-IsFresh q (pop_deferred_task q s now) (pop_deferred_task-perm q s now)
      (pop_deferred_task-id q s now) f
