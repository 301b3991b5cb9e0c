-- ===== src/Generate/Reason.antt =====
-- core/src/server/server-context.cpp, process_token: why a generation ends.
use llama_go.Base.{
  ℕ, ◌≡◌, ◌≢◌, inl, inr, true, false, Option, none, some, List, [], ◌∷◌, ltb, min, length, drop,
  Bool-cases, Option-cases, arith, ℤ,
}
use llama_go.Task.{TaskParams, stop_none, stop_word}
use llama_go.Slots.{Slot}
use llama_go.Generate.{
  GenEnv, earlier, full_stop, find_partial, validate_utf8, find_full, append_token, send_rest,
  send_after, send_text, check_context, check_budget, check_indentation, check_line, find_new_line,
  check_time, check_eog, check_limits, has_budget, process_token,
}

-- A generation that has ended has a reason.
abbrev pub HasReason : Slot → Type 0
HasReason slot = slot.has_next_token ≡ false → slot.stop ≢ stop_none

find_full-HasReason :
    (words : List (List ℕ)) (text : List ℕ) (n : ℕ) (slot : Slot) (best : Option ℕ)
    → HasReason slot
    → HasReason (find_full words text n slot best).0
unfolding find_full
find_full-HasReason [] text n slot best h = h
find_full-HasReason (w ∷ ws) text n slot best h =
    elim (Bool-cases (earlier (full_stop text n w) best)) [
      | inl k ↦
          rw (k, find_full)
            (find_full-HasReason ws text n
              (record slot { stop = stop_word; stopping_word = w; has_next_token = false })
              (full_stop text n w) (λ e f. cc))
      | inr k ↦ rw (k, find_full) (find_full-HasReason ws text n slot best h)
    ]

send_after-HasReason :
    (env : GenEnv) (params : TaskParams) (tok : ℤ) (str : List ℕ) (slot : Slot) (found : Option ℕ)
    → HasReason slot
    → HasReason (send_after env params tok str (slot, found)).0
unfolding send_after send_rest
send_after-HasReason env params tok str slot (some p) h = h
send_after-HasReason env params tok str slot none h = elim (Bool-cases (env.is_eog tok)) [
  | inl k ↦ rw (k, send_after) h
  | inr k ↦ elim (Option-cases (find_partial env params.antiprompt str none)) [
    | inl n ↦ rw (k, n, send_after) h
    | inr (p, n) ↦ rw (k, n, send_after) h
  ]
]

context-HasReason :
    (env : GenEnv) (slot : Slot) → HasReason slot → HasReason (check_context env slot)
unfolding check_context
context-HasReason env slot h = ground arith

budget-HasReason :
    (env : GenEnv) (params : TaskParams) (slot : Slot)
    → HasReason slot
    → HasReason (check_budget env params slot)
unfolding check_budget has_budget
budget-HasReason env params slot h = ground arith

line-HasReason :
    (params : TaskParams) (slot : Slot) → HasReason slot → HasReason (check_line params slot)
unfolding check_line
line-HasReason params slot h = ground arith

new_line-HasReason : (slot : Slot) → HasReason slot → HasReason (find_new_line slot)
unfolding find_new_line
new_line-HasReason slot h = ground arith

indentation-HasReason :
    (params : TaskParams) (slot : Slot) → HasReason slot → HasReason (check_indentation params slot)
unfolding check_indentation
indentation-HasReason params slot h = ground (
  arith,
  line-HasReason params slot h,
  new_line-HasReason slot h,
  new_line-HasReason (check_line params slot) (line-HasReason params slot h),
)

time-HasReason :
    (env : GenEnv) (params : TaskParams) (text : List ℕ) (slot : Slot)
    → HasReason slot
    → HasReason (check_time env params text slot)
unfolding check_time
time-HasReason env params text slot h = ground arith

eog-HasReason :
    (env : GenEnv) (tok : ℤ) (slot : Slot) → HasReason slot → HasReason (check_eog env tok slot)
unfolding check_eog
eog-HasReason env tok slot h = ground arith

limits-HasReason :
    (env : GenEnv) (params : TaskParams) (tok : ℤ) (text : List ℕ) (slot : Slot)
    → HasReason slot
    → HasReason (check_limits env params tok text slot)
unfolding check_limits
limits-HasReason env params tok text slot h =
    let s1 = check_context env slot in
    let s2 = check_budget env params s1 in
    let s3 = check_indentation params s2 in
    eog-HasReason env tok _ (
      time-HasReason env params text s3 (
        indentation-HasReason params s2
          (budget-HasReason env params s1 (context-HasReason env slot h))))

-- Whenever process_token says that the generation is over, a reason is recorded: a stop word, a limit or the
-- end of the generation by the model. This holds whatever the slot held before.
pub process_token-HasReason :
    (env : GenEnv) (params : TaskParams) (slot : Slot) (tok : ℤ) (text : List ℕ)
    → HasReason (process_token env params slot tok text).0
unfolding process_token append_token send_text
process_token-HasReason env params slot tok text =
    let slot1 = append_token params slot tok text in
    let str = drop (min slot1.n_sent_text (length slot1.generated_text)) slot1.generated_text in
    let r = find_full params.antiprompt str (length text) slot1 none in
    let going : HasReason slot1 = (λ e f. cc) in
    elim (Bool-cases (ltb (validate_utf8 slot1.generated_text) (length slot1.generated_text))) [
      | inl k ↦
          rw (k, process_token)
            (limits-HasReason env params tok text (record slot1 { has_next_token = true })
              (λ e f. cc))
      | inr k ↦
          rw (k, process_token)
            (limits-HasReason env params tok (send_text env params slot1 tok (length text)).1
              (send_text env params slot1 tok (length text)).0
              (send_after-HasReason env params tok str r.0 r.1
                (find_full-HasReason params.antiprompt str (length text) slot1 none going)))
    ]
