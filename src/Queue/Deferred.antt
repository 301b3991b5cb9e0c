-- ===== src/Queue/Deferred.antt =====
-- core/src/server/server-queue.cpp, server_queue::pop_deferred_task and defer: no deferred task is
-- lost, and which one is taken up when a slot becomes free.
use mathlib.Core.List.{Perm, perm_middle}
use mathlib.Core.List.Perm
use llama_go.Base.{
  ℕ, ◌≡◌, refl, Bool, true, false, none, some, List, [], ◌∷◌, ◌++◌, All, extract, Bool-cases, ◌⊎◌,
  inl, inr, ℤ,
}
use llama_go.Task.{Task}
use llama_go.Queue.{Queue, uses_slot, pop_first, pop_deferred_task}

-- All tasks that wait.
abbrev pub pending : Queue → List Task
pending q = q.queue_tasks ++ q.queue_tasks_deferred

module _ {ℓ} {A : Type ℓ} (p : A → Bool) where
  extract_first :
      (xs : List A) (y : A) (ys : List A)
      → All (λ x. p x ≡ false) xs
      → p y ≡ true
      → extract p (xs ++ y ∷ ys) ≡ some (y, xs ++ ys)
  unfolding extract
  extract_first [] y ys h k = rw k
  extract_first (x ∷ xs) y ys h k = rw (h.0, extract_first xs y ys h.1 k, extract)

  extract-none : (xs : List A) → All (λ x. p x ≡ false) xs → extract p xs ≡ none
  unfolding extract
  extract-none [] h = refl
  extract-none (x ∷ xs) h = rw (h.0, extract-none xs h.1, extract)

  extract-cases :
      (xs : List A)
      → (extract p xs ≡ none)
        ⊎ ((y : A) × (ys : List A) × (extract p xs ≡ some (y, ys)) × Perm xs (y ∷ ys))
  unfolding extract
  extract-cases [] = inl refl
  extract-cases (x ∷ xs) = elim (Bool-cases (p x)) [
    | inl h ↦ inr (x, xs, rw h, Perm.refl (x ∷ xs))
    | inr h ↦ elim (extract-cases xs) [
      | inl n ↦ inl (rw (h, n, extract))
      | inr (y, ys, e, q) ↦
          inr (y, x ∷ ys, rw (h, e, extract), Perm.trans (Perm.cons x q) (Perm.swap y x ys))
    ]
  ]

pop_first-cases :
    (ts : List Task) (s : ℤ)
    → ((ts ≡ []) × (pop_first ts s ≡ none))
      ⊎ ((t : Task) × (rest : List Task) × (pop_first ts s ≡ some (t, rest)) × Perm ts (t ∷ rest))
unfolding pop_first
pop_first-cases [] s = inl (refl, refl)
pop_first-cases (u ∷ us) s = elim (extract-cases (uses_slot s) (u ∷ us)) [
  | inl n ↦ inr (u, us, rw (n, pop_first), Perm.refl (u ∷ us))
  | inr (y, ys, e, q) ↦ inr (y, ys, rw (e, pop_first), q)
]

-- Taking up a deferred task loses no task and makes none up: the same tasks wait before and after.
pub pop_deferred_task-perm :
    (q : Queue) (id_slot : ℤ) (now : ℕ)
    → Perm (pending q) (pending (pop_deferred_task q id_slot now))
unfolding pop_deferred_task
pop_deferred_task-perm q id_slot now = elim (pop_first-cases q.queue_tasks_deferred id_slot) [
  | inl (_, e) ↦ rw (e, pop_deferred_task) (Perm.refl (pending q))
  | inr (t, rest, e, p) ↦
      rw (e, pop_deferred_task)
        (Perm.trans (Perm.append_left q.queue_tasks p) (perm_middle q.queue_tasks rest))
]

pop_first_names :
    (before after : List Task) (t : Task) (s : ℤ)
    → All (λ u. uses_slot s u ≡ false) before
    → uses_slot s t ≡ true
    → pop_first (before ++ t ∷ after) s ≡ some (t, before ++ after)
unfolding pop_first
pop_first_names [] after t s h k = rw (extract_first (uses_slot s) [] t after tt k, pop_first)
pop_first_names (u ∷ us) after t s h k =
    rw (extract_first (uses_slot s) (u ∷ us) t after h k, pop_first)

-- When a slot becomes free, the first deferred task that asks for this slot goes to the front of the
-- main queue, and the other deferred tasks stay in order.
pub pop_deferred_task-names_slot :
    (q : Queue) (id_slot : ℤ) (now : ℕ) (before after : List Task) (t : Task)
    → q.queue_tasks_deferred ≡ before ++ t ∷ after
    → All (λ u. uses_slot id_slot u ≡ false) before
    → uses_slot id_slot t ≡ true
    → let r = pop_deferred_task q id_slot now in
      (r.queue_tasks ≡ t ∷ q.queue_tasks) × (r.queue_tasks_deferred ≡ before ++ after)
unfolding pop_deferred_task
pop_deferred_task-names_slot q id_slot now before after t d h k =
    rw (d, pop_first_names before after t id_slot h k, pop_deferred_task) (refl, refl)

-- If no deferred task asks for the slot, the one that was deferred first is taken up.
pub pop_deferred_task-oldest :
    (q : Queue) (id_slot : ℤ) (now : ℕ) (t : Task) (rest : List Task)
    → q.queue_tasks_deferred ≡ t ∷ rest
    → All (λ u. uses_slot id_slot u ≡ false) (t ∷ rest)
    → let r = pop_deferred_task q id_slot now in
      (r.queue_tasks ≡ t ∷ q.queue_tasks) × (r.queue_tasks_deferred ≡ rest)
unfolding pop_deferred_task pop_first
pop_deferred_task-oldest q id_slot now t rest d h =
    rw (d, extract-none (uses_slot id_slot) (t ∷ rest) h, pop_deferred_task) (refl, refl)
