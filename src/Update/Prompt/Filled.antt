-- ===== src/Update/Prompt/Filled.antt =====
-- core/src/server/server-context.cpp, update_slots: what the loop over a prompt leaves of the slot and the batch.
use llama_go.Base.{
  ℕ, ◌+◌, ◌-◌, ◌≤◌, ◌<◌, ◌≡◌, refl, ap, inl, inr, Bool, true, false, not, ◌||◌, ltb, List, [], ◌∷◌,
  ◌++◌, length, length-append, max, ℤ, ◌==ℤ◌, ok, arith, Bool-cases, Option-cases, get_elem?,
  length-set, pos, negsuc, ◌==◌, ◌⊎◌, if◌then◌else◌, All,
}
use llama_go.Tokens.{null_token, push_token, pos_next}
use llama_go.Task.{Task, need_embd}
use llama_go.Generate.Life.{life}
use llama_go.Slots.{Slot, done_prompt}
use llama_go.Update.{UpdateEnv, BatchToken, batch_add}
use llama_go.Update.Begin.{with_tokens}
use llama_go.Update.Draft.{add_token}
use llama_go.Update.Draft.Room.{
  tokens_of, IsAdded, IsAdded-trans, nothing-IsAdded, size-tokens_of, add_token-IsAdded,
}
use llama_go.Update.Prompt.{
  at_invocation, before_last, fill, make_checkpoint, ask_logits, finish_prompt,
}

-- Some of the tokens were added, and the batch was not filled beyond its size.
abbrev pub IsFilled : UpdateEnv → List ℤ → Slot × List BatchToken → Slot × List BatchToken → Type 0
IsFilled env tokens (slot, batch) r =
    (done : List ℤ) × (rest : List ℤ) × (tokens ≡ done ++ rest)
    × IsAdded slot batch done r
    × (length r.1 ≤ max env.n_batch (length batch))

abbrev pub IsText : List ℤ → Type 0
IsText xs = All (λ x. (x ==ℤ null_token) ≡ false) xs

added :
    (slot : Slot) (batch : List BatchToken) (x : ℤ) (logits : Bool)
    → (x ==ℤ null_token) ≡ false
    → (r : Slot × List BatchToken) × (add_token slot batch x logits ≡ ok r)
      × IsAdded slot batch (x ∷ []) r
unfolding add_token push_token
added slot batch x logits h =
    let r : Slot × List BatchToken = (
      with_tokens slot (record slot.prompt.tokens { tokens = slot.prompt.tokens.tokens ++ x ∷ [] }),
      batch_add batch x (pos_next slot.prompt.tokens) slot.id logits,
    ) in
    let e : add_token slot batch x logits ≡ ok r = rw (h, push_token) refl in
    (r, e, add_token-IsAdded slot batch x logits r e)

size-IsAdded :
    (slot : Slot) (batch : List BatchToken) (x : ℤ) (r : Slot × List BatchToken)
    → IsAdded slot batch (x ∷ []) r
    → length r.1 ≡ length batch + 1
size-IsAdded slot batch x r a = omega (
  arith,
  size-tokens_of r.1,
  size-tokens_of batch,
  ap length a.1,
  length-append (tokens_of batch) (x ∷ []),
)

pub fill-IsFilled :
    (env : UpdateEnv) (task : Task) (c : Bool) (scale : ℤ) (tokens : List ℤ) (slot : Slot)
    (batch : List BatchToken)
    → IsText tokens
    → (r : Slot × List BatchToken) × (fill env task c scale tokens (slot, batch) ≡ ok r)
      × IsFilled env tokens (slot, batch) r
unfolding fill life
fill-IsFilled env task c scale [] slot batch t =
    ((slot, batch), refl, ([], [], refl, nothing-IsAdded slot batch, omega arith))
fill-IsFilled env task c scale (x ∷ tokens) slot batch t =
    elim (Bool-cases
      (not (ltb (length batch) env.n_batch) || (x ==ℤ null_token) || at_invocation slot scale)) [
        | inl h ↦
            rw (h, fill)
              ((slot, batch), refl, ([], x ∷ tokens, refl, nothing-IsAdded slot batch, omega arith))
        | inr h ↦
            let (q, f, a) = added slot batch x (need_embd task.info) t.0 in
            let slot2 = record q.0 {
              n_prompt_tokens_processed = q.0.n_prompt_tokens_processed + 1;
            } in
            let more : length batch < env.n_batch = ground arith in
            let size : length q.1 ≡ length batch + 1 = size-IsAdded slot batch x q a in
            elim (Bool-cases (before_last env slot2 task c)) [
              | inl b ↦
                  rw (h, f, b, fill)
                    ((slot2, q.1), refl, (x ∷ [], tokens, refl, a, omega (arith, size)))
              | inr b ↦
                  let (r, e, (done, rest, s, i, l)) =
                    fill-IsFilled env task c scale tokens slot2 q.1 t.1 in
                  rw (h, f, b, fill)
                    (
                      r,
                      e,
                      (
                        x ∷ done,
                        rest,
                        ap (◌∷◌ x) s,
                        IsAdded-trans slot batch (x ∷ []) done q r a i,
                        omega (arith, size, l),
                      ),
                    )
            ]
      ]

pub checkpoint_keeps :
    (env : UpdateEnv) (slot : Slot) (lo hi : ℤ)
    → ((make_checkpoint env slot lo hi).prompt.tokens ≡ slot.prompt.tokens)
      × ((make_checkpoint env slot lo hi).state ≡ slot.state)
unfolding make_checkpoint
checkpoint_keeps env slot (pos lo) (pos hi) = (ground arith, ground arith)
checkpoint_keeps env slot (pos lo) (negsuc hi) = (refl, refl)
checkpoint_keeps env slot (negsuc lo) hi = (refl, refl)

length-ask_logits : (batch : List BatchToken) (i : ℕ) → length (ask_logits batch i) ≡ length batch
unfolding ask_logits
length-ask_logits batch i = elim (Option-cases (get_elem? batch i)) [
  | inl e ↦ rw (e, ask_logits) refl
  | inr (b, e) ↦ rw (e, ask_logits) (length-set batch i (record b { logits = true }))
]

-- A slot whose prompt is complete is done, and no other is.
abbrev pub IsFinished : Task → Slot × List BatchToken → Slot × List BatchToken → Type 0
IsFinished task (slot, batch) (slot', batch') =
    (slot'.prompt.tokens ≡ slot.prompt.tokens)
    × (length batch' ≡ length batch)
    × (slot'.state ≡ (
        if length slot.prompt.tokens.tokens == length task.tokens.tokens
        then done_prompt
        else slot.state))

pub finish_prompt-IsFinished :
    (env : UpdateEnv) (task : Task) (c : Bool) (slot : Slot) (batch : List BatchToken)
    → (length slot.prompt.tokens.tokens < length task.tokens.tokens) ⊎ (0 < length batch)
    → (r : Slot × List BatchToken) × (finish_prompt env task c (slot, batch) ≡ ok r)
      × IsFinished task (slot, batch) r
unfolding finish_prompt
finish_prompt-IsFinished env task c slot batch n =
    elim (Bool-cases (length slot.prompt.tokens.tokens == length task.tokens.tokens)) [
      | inr h ↦ rw (h, finish_prompt) ((slot, batch), refl, (refl, refl, refl))
      | inl h ↦
          let some_left : (length batch == 0) ≡ false = ground arith in
          let last = length batch - 1 in
          let slot1 = record slot { state = done_prompt; n_decoded = 0; i_batch = pos last } in
          let (a, b) = checkpoint_keeps env slot1 (env.pos_min slot1) (env.pos_max slot1) in
          elim (Bool-cases c) [
            | inl k ↦
                rw (h, some_left, k, finish_prompt) (_, refl, (a, length-ask_logits batch last, b))
            | inr k ↦
                rw (h, some_left, k, finish_prompt)
                  (_, refl, (refl, length-ask_logits batch last, refl))
          ]
    ]
