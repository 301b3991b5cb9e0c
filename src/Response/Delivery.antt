-- ===== src/Response/Delivery.antt =====
-- core/src/server/server-queue.cpp, server_response::send, recv and recv_with_timeout: how results reach
-- the thread that waits for them.
use llama_go.Base.{
  ◌≡◌, refl, ap, sym, not, if_false, ◌∙◌, inl, inr, Bool, true, false, ◌&&◌, some, List, [], ◌∷◌,
  ◌++◌, append-nil, if◌then◌else◌, keep, keep-append, extract, All, Bool-cases, ℤ,
}
use llama_go.Task.{TaskResult}
use llama_go.Response.{
  Response, contains, send, result_of, wanted, take_result, Wait, Op, received, terminated,
  terminate, recv, recv_with_timeout,
}

module _ {ℓ} {A : Type ℓ} (p : A → Bool) where
  extract_first :
      (xs : List A) (y : A) (ys : List A)
      → All (λ x. p x ≡ false) xs
      → p y ≡ true
      → extract p (xs ++ y ∷ ys) ≡ some (y, xs ++ ys)
  unfolding extract
  extract_first [] y ys h k = rw k
  extract_first (x ∷ xs) y ys h k = rw (h.0, extract_first xs y ys h.1 k, extract)

take_result_first :
    (ids : List ℤ) (r : Response) (before after : List TaskResult) (x : TaskResult)
    → r.queue_results ≡ before ++ x ∷ after
    → All (λ y. wanted ids y ≡ false) before
    → wanted ids x ≡ true
    → take_result r ids ≡ some (x, record r { queue_results = before ++ after })
unfolding take_result
take_result_first ids r before after x e h k =
    let found : extract (wanted ids) r.queue_results ≡ some (x, before ++ after) =
      ap (extract (wanted ids)) e ∙ extract_first (wanted ids) before x after h k in
    rw (found, take_result)

-- A reader that polls while results wait takes the one for its ids that was sent first, at once; the
-- other results, those for its own ids too, stay in their order.
pub recv_with_timeout-oldest :
    (ids : List ℤ) (r : Response) (ws : List Wait) (before after : List TaskResult) (x : TaskResult)
    → r.queue_results ≡ before ++ x ∷ after
    → All (λ y. wanted ids y ≡ false) before
    → wanted ids x ≡ true
    → recv_with_timeout ids r ws ≡ received x (record r { queue_results = before ++ after })
unfolding recv_with_timeout
recv_with_timeout-oldest ids r [] before after x e h k =
    rw (take_result_first ids r before after x e h k, recv_with_timeout)
recv_with_timeout-oldest ids r (w ∷ ws) before after x e h k =
    rw (take_result_first ids r before after x e h k, recv_with_timeout)

-- As long as the queue runs, recv takes the same result as recv_with_timeout from those that wait.
pub recv-oldest :
    (ids : List ℤ) (r : Response) (waits : List (List Op)) (before after : List TaskResult)
    (x : TaskResult)
    → r.running ≡ true
    → r.queue_results ≡ before ++ x ∷ after
    → All (λ y. wanted ids y ≡ false) before
    → wanted ids x ≡ true
    → recv ids r waits ≡ received x (record r { queue_results = before ++ after })
unfolding recv
recv-oldest ids r [] before after x on e h k =
    if_false _ _ _ (ap not on) ∙ rw (take_result_first ids r before after x e h k)
recv-oldest ids r (ops ∷ waits) before after x on e h k =
    if_false _ _ _ (ap not on) ∙ rw (take_result_first ids r before after x e h k)

-- After terminate, recv ends the process at once, whatever results wait.
pub recv-terminate :
    (ids : List ℤ) (r : Response) (waits : List (List Op))
    → recv ids (terminate r) waits ≡ terminated
unfolding recv terminate
recv-terminate ids r [] = refl
recv-terminate ids r (ops ∷ waits) = refl

-- The results for an id, in the order in which they would be taken.
abbrev pub results_of : ℤ → Response → List TaskResult
results_of i r = keep (result_of i) r.queue_results

-- A result that is sent for an id on which nobody waits is dropped, and any other comes behind the
-- results for the same id; the results for other ids are untouched.
pub send-results_of :
    (r : Response) (x : TaskResult) (i : ℤ)
    → results_of i (send r x)
      ≡ results_of i r ++ (if contains r.waiting_task_ids x.id && result_of i x then x ∷ [] else [])
unfolding send keep
send-results_of r x i = elim (Bool-cases (contains r.waiting_task_ids x.id)) [
  | inl h ↦ rw (h, send) (keep-append (result_of i) r.queue_results (x ∷ []))
  | inr h ↦ rw (h, send) (sym (append-nil (results_of i r)))
]
