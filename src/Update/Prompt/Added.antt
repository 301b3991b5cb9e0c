-- ===== src/Update/Prompt/Added.antt =====
-- core/src/server/server-context.cpp, update_slots: a prompt of text is added to the batch part by part.
use llama_go.Base.{
  ℕ, zero, suc, ◌+◌, ◌≤◌, ◌<◌, ◌≡◌, refl, sym, ap, ◌∙◌, subst, inl, inr, ◌⊎◌, true, false, not,
  ◌&&◌, ◌==◌, ltb, if◌then◌else◌, List, [], ◌∷◌, ◌++◌, append_assoc, length, length-append,
  get_elem?, drop, drop-append_length, max, ℤ, ok, arith, Bool-cases,
}
use llama_go.Tokens.{clear, pos_next}
use llama_go.Task.{Task}
use llama_go.Lora.{lora_all_alora}
use llama_go.Generate.Life.{life}
use llama_go.Slots.{Slot, done_prompt, clear_prompt}
use llama_go.Update.{UpdateEnv}
use llama_go.Update.Begin.{can_split}
use llama_go.Update.Draft.Room.{tokens_of, size-tokens_of}
use llama_go.Update.Prompt.{
  Filling, Continued, waits, media_failed, continued, truncate_memory, process_media, starts_media,
  disable_alora, makes_checkpoints, add_prompt, continue_prompt,
}
use llama_go.Update.Prompt.Filled.{IsText, fill-IsFilled, finish_prompt-IsFinished}

-- The slot holds the first tokens of the prompt, and `rest` is what follows them.
abbrev pub IsPart : Task → Slot → List ℤ → Type 0
IsPart task slot rest = task.tokens.tokens ≡ slot.prompt.tokens.tokens ++ rest

IsText-append_right : (xs ys : List ℤ) → IsText (xs ++ ys) → IsText ys
IsText-append_right [] ys t = t
IsText-append_right (x ∷ xs) ys t = IsText-append_right xs ys t.1

-- The slot holds more of the prompt or as much, it is done just when it holds all, and the batch holds as
-- many tokens more as the slot, but no more than its size.
abbrev pub IsMore : UpdateEnv → Task → Filling → Filling → Type 0
IsMore env task f f' =
    (rest : List ℤ) × IsPart task f'.slot rest
    × (f'.slot.state ≡ (if length rest == 0 then done_prompt else f.slot.state))
    × (length f'.batch + length f.slot.prompt.tokens.tokens
        ≡ length f.batch + length f'.slot.prompt.tokens.tokens)
    × (length f'.batch ≤ max env.n_batch (length f.batch))

add_prompt-IsMore :
    (env : UpdateEnv) (task : Task) (f : Filling) (rest : List ℤ)
    → IsPart task f.slot rest
    → IsText task.tokens.tokens
    → 0 < length rest
    → (f' : Filling) × (add_prompt env task f ≡ ok f') × IsMore env task f f'
unfolding add_prompt life
add_prompt-IsMore env task f rest p t z =
    let old = f.slot.prompt.tokens.tokens in
    let c = makes_checkpoints env task in
    let here : drop (length old) task.tokens.tokens ≡ rest =
      ap (drop (length old)) p ∙ drop-append_length old rest in
    let (r, e, (done, left, s, (a1, a2, a3, a4), l)) =
      fill-IsFilled env task c f.alora_scale rest f.slot f.batch
        (IsText-append_right old rest (subst IsText p t)) in
    let whole : task.tokens.tokens ≡ r.0.prompt.tokens.tokens ++ left =
      p
      ∙ ap (λ zs. old ++ zs) s
      ∙ sym (append_assoc old done left)
      ∙ ap (λ zs. zs ++ left) (sym a1) in
    let size1 : length r.0.prompt.tokens.tokens ≡ length old + length done =
      ap length a1 ∙ length-append old done in
    let size2 : length r.1 ≡ length f.batch + length done = omega (
      arith,
      size-tokens_of r.1,
      size-tokens_of f.batch,
      ap length a2,
      length-append (tokens_of f.batch) done,
    ) in
    let size3 : length task.tokens.tokens ≡ length r.0.prompt.tokens.tokens + length left =
      ap length whole ∙ length-append r.0.prompt.tokens.tokens left in
    let size4 : length rest ≡ length done + length left = ap length s ∙ length-append done left in
    let (q, g, (b1, b2, b3)) = finish_prompt-IsFinished env task c r.0 r.1 (
      not_empty (length r.0.prompt.tokens.tokens) (length left) (length r.1)
        (length task.tokens.tokens) size3 (λ e. omega (arith, e, size2, size4))) in
    let zero_left : (length r.0.prompt.tokens.tokens == length task.tokens.tokens)
        ≡ (length left == 0) =
      same_test (length r.0.prompt.tokens.tokens) (length left) (length task.tokens.tokens) size3 in
    let state =
      b3
      ∙ ap (λ b. if b then done_prompt else r.0.state) zero_left
      ∙ ap (λ st. if length left == 0 then done_prompt else st) (ap (λ l. l.0) a4) in
    rw (here, e, g, add_prompt)
      (
        _,
        refl,
        (
          left,
          whole ∙ ap (λ ts. ts.tokens ++ left) (sym b1),
          state,
          omega (arith, b2, ap (λ ts. length ts.tokens) b1, size1, size2),
          omega (arith, b2, l),
        ),
      )
  where
    not_empty : (m k n w : ℕ) → w ≡ m + k → (k ≡ 0 → 0 < n) → (m < w) ⊎ (0 < n)
    not_empty m zero n w e h = inr (h refl)
    not_empty m (suc k) n w e h = inl (omega arith)

    same_test : (m k w : ℕ) → w ≡ m + k → (m == w) ≡ (k == 0)
    same_test m k w e = ground arith

-- What the outcome of a text prompt is: it waits only if it cannot be split and does not fit, and no media
-- are decoded.
abbrev pub IsContinued : UpdateEnv → Task → Filling → Continued → Type 0
IsContinued env task f waits =
    (can_split env task ≡ false) × (env.n_batch < length f.batch + length task.tokens.tokens)
IsContinued env task f (media_failed slot) = true ≡ false
IsContinued env task f (continued f') =
    IsMore env task (record f { slot = truncate_memory env f.slot }) f'

-- The slot after the memory was truncated, or cleared where that failed.
truncate-IsPart :
    (env : UpdateEnv) (task : Task) (slot : Slot) (rest : List ℤ)
    → IsPart task slot rest
    → 0 < length rest
    → (left : List ℤ) × IsPart task (truncate_memory env slot) left
      × (0 < length left)
      × ((truncate_memory env slot).lora ≡ slot.lora)
unfolding truncate_memory clear_prompt clear
truncate-IsPart env task slot rest p z =
    elim (Bool-cases (env.seq_rm slot (pos_next slot.prompt.tokens))) [
      | inl h ↦ rw (h, truncate_memory) (rest, p, z, refl)
      | inr h ↦
          rw (h, truncate_memory)
            (
              task.tokens.tokens,
              refl,
              omega (arith, ap length p, length-append slot.prompt.tokens.tokens rest),
              refl,
            )
    ]

no_media : (xs ys : List ℤ) → IsText ys → starts_media (get_elem? (xs ++ ys) (length xs)) ≡ false
unfolding starts_media
no_media [] [] t = refl
no_media [] (y ∷ ys) t = t.0
no_media (x ∷ xs) ys t = no_media xs ys t

-- A prompt of text is added part by part: the slot always holds a first part of it, the batch grows by
-- what the slot gains and not beyond its size, and the slot is done just when it holds the whole prompt.
-- The slot has no aLoRA, and some of the prompt is left to be processed; nothing fails.
pub continue_prompt-IsContinued :
    (env : UpdateEnv) (task : Task) (f : Filling) (rest : List ℤ)
    → IsPart task f.slot rest
    → 0 < length rest
    → IsText task.tokens.tokens
    → lora_all_alora f.slot.lora ≡ false
    → (c : Continued) × (continue_prompt env task f ≡ ok c) × IsContinued env task f c
unfolding continue_prompt process_media disable_alora
continue_prompt-IsContinued env task f rest p z t a =
    elim (Bool-cases
      (not (can_split env task) && ltb env.n_batch (length f.batch + length task.tokens.tokens))) [
        | inl h ↦ rw (h, continue_prompt) (waits, refl, (ground arith, ground arith))
        | inr h ↦
            let slot1 = truncate_memory env f.slot in
            let (left, q, k, l) = truncate-IsPart env task f.slot rest p z in
            let old = slot1.prompt.tokens.tokens in
            let text : starts_media (get_elem? task.tokens.tokens (length old)) ≡ false =
              ap (λ zs. starts_media (get_elem? zs (length old))) q
              ∙ no_media old left (IsText-append_right old left (subst IsText q t)) in
            let no_alora = ap lora_all_alora l ∙ a in
            let (f', e, m) = add_prompt-IsMore env task (record f { slot = slot1 }) left q t k in
            rw (h, text, no_alora, e, continue_prompt) (continued f', refl, m)
      ]
