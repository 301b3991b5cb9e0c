-- ===== src/Generate/Life.antt =====
-- core/src/server/server-context.cpp, process_token: it neither ends nor starts the work of a slot.
use llama_go.Base.{
  ℕ, ◌≡◌, refl, ◌∙◌, inl, inr, true, false, Option, none, some, List, [], ◌∷◌, min, drop, ltb,
  length, Bool-cases, ℤ, arith,
}
use llama_go.Task.{Task, TaskParams, stop_word}
use llama_go.Slots.{Slot, SlotState}
use llama_go.Generate.{
  GenEnv, earlier, full_stop, append_token, send_text, send_after, send_rest, find_full,
  validate_utf8, check_context, check_budget, check_indentation, check_line, find_new_line,
  check_time, check_eog, check_limits, process_token, has_budget, stop_at_limit,
}

-- The state and the task of a slot.
unfoldable pub life : Slot → SlotState × Option Task
life slot = (slot.state, slot.task)

find_full-life :
    (words : List (List ℕ)) (text : List ℕ) (n : ℕ) (slot : Slot) (best : Option ℕ)
    → life (find_full words text n slot best).0 ≡ life slot
unfolding find_full life
find_full-life [] text n slot best = refl
find_full-life (w ∷ ws) text n slot best = elim (Bool-cases (earlier (full_stop text n w) best)) [
  | inl k ↦
      rw (k, find_full)
        (find_full-life ws text n
          (record slot { stop = stop_word; stopping_word = w; has_next_token = false })
          (full_stop text n w))
  | inr k ↦ rw (k, find_full) (find_full-life ws text n slot best)
]

send_after-life :
    (env : GenEnv) (params : TaskParams) (tok : ℤ) (str : List ℕ) (slot : Slot) (found : Option ℕ)
    → life (send_after env params tok str (slot, found)).0 ≡ life slot
unfolding send_after send_rest life
send_after-life env params tok str slot (some p) = refl
send_after-life env params tok str slot none = ground arith

send_text-life :
    (env : GenEnv) (params : TaskParams) (slot : Slot) (tok : ℤ) (size : ℕ)
    → life (send_text env params slot tok size).0 ≡ life slot
unfolding send_text
send_text-life env params slot tok size =
    let str = drop (min slot.n_sent_text (length slot.generated_text)) slot.generated_text in
    let r = find_full params.antiprompt str size slot none in
    send_after-life env params tok str r.0 r.1 ∙ find_full-life params.antiprompt str size slot none

context-life : (env : GenEnv) (slot : Slot) → life (check_context env slot) ≡ life slot
unfolding check_context life
context-life env slot = ground arith

has_budget-life :
    (env : GenEnv) (params : TaskParams) (slot : Slot)
    → life (has_budget env params slot).0 ≡ life slot
unfolding has_budget life
has_budget-life env params slot = ground arith

budget-life :
    (env : GenEnv) (params : TaskParams) (slot : Slot)
    → life (check_budget env params slot) ≡ life slot
unfolding check_budget stop_at_limit life
budget-life env params slot = ground (arith, has_budget-life env params slot)

line-life : (params : TaskParams) (slot : Slot) → life (check_line params slot) ≡ life slot
unfolding check_line life
line-life params slot = ground arith

new_line-life : (slot : Slot) → life (find_new_line slot) ≡ life slot
unfolding find_new_line life
new_line-life slot = ground arith

indentation-life :
    (params : TaskParams) (slot : Slot) → life (check_indentation params slot) ≡ life slot
unfolding check_indentation
indentation-life params slot =
    ground
      (arith, line-life params slot, new_line-life slot, new_line-life (check_line params slot))

time-life :
    (env : GenEnv) (params : TaskParams) (text : List ℕ) (slot : Slot)
    → life (check_time env params text slot) ≡ life slot
unfolding check_time life
time-life env params text slot = ground arith

eog-life : (env : GenEnv) (tok : ℤ) (slot : Slot) → life (check_eog env tok slot) ≡ life slot
unfolding check_eog life
eog-life env tok slot = ground arith

limits-life :
    (env : GenEnv) (params : TaskParams) (tok : ℤ) (text : List ℕ) (slot : Slot)
    → life (check_limits env params tok text slot) ≡ life slot
unfolding check_limits
limits-life env params tok text slot =
    let s1 = check_context env slot in
    let s2 = check_budget env params s1 in
    let s3 = check_indentation params s2 in
    eog-life env tok (check_time env params text s3)
    ∙ time-life env params text s3
    ∙ indentation-life params s2
    ∙ budget-life env params s1
    ∙ context-life env slot

pub process_token-life :
    (env : GenEnv) (params : TaskParams) (slot : Slot) (tok : ℤ) (text : List ℕ)
    → life (process_token env params slot tok text).0 ≡ life slot
unfolding process_token append_token life
process_token-life env params slot tok text =
    let slot1 = append_token params slot tok text in
    elim (Bool-cases (ltb (validate_utf8 slot1.generated_text) (length slot1.generated_text))) [
      | inl c ↦
          rw (c, process_token)
            (limits-life env params tok text (record slot1 { has_next_token = true }))
      | inr c ↦
          rw (c, process_token)
            (limits-life env params tok (send_text env params slot1 tok (length text)).1
                (send_text env params slot1 tok (length text)).0
              ∙ send_text-life env params slot1 tok (length text))
    ]
