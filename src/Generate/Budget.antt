-- ===== src/Generate/Budget.antt =====
-- core/src/server/server-context.cpp, has_budget and process_token: how many tokens are generated.
use llama_go.Base.{
  ℕ, ◌<◌, ◌≤◌, ◌≡◌, refl, ◌∙◌, inl, inr, true, false, Option, none, some, [], ◌∷◌, min, drop, ltb,
  length, Bool-cases, List, arith, ℤ, pos, ◌==ℤ◌,
}
use llama_go.Task.{TaskParams, stop_word}
use llama_go.Slots.{Slot}
use llama_go.Generate.{
  GenEnv, earlier, full_stop, has_budget, sub_int, is_positive, append_token, send_text, send_after,
  send_rest, find_full, validate_utf8, check_context, check_budget, check_indentation, check_line,
  find_new_line, check_time, check_eog, check_limits, process_token,
}

positive_left : (n d : ℕ) → is_positive (sub_int (pos n) d) ≡ ltb d n
unfolding is_positive sub_int
positive_left n d = ground arith

-- A task with a number of tokens to predict has budget left exactly while fewer were decoded.
pub has_budget_iff :
    (env : GenEnv) (params : TaskParams) (slot : Slot) (n : ℕ)
    → params.n_predict ≡ pos n
    → (has_budget env params slot).1 ≡ ltb slot.n_decoded n
unfolding has_budget ◌==ℤ◌
has_budget_iff env params slot n h = rw (h, has_budget) (positive_left n slot.n_decoded)

context-n_decoded :
    (env : GenEnv) (slot : Slot) → (check_context env slot).n_decoded ≡ slot.n_decoded
unfolding check_context
context-n_decoded env slot = ground arith

budget-over :
    (env : GenEnv) (params : TaskParams) (slot : Slot) (n : ℕ)
    → params.n_predict ≡ pos n
    → 0 < slot.n_decoded
    → n ≤ slot.n_decoded
    → (check_budget env params slot).has_next_token ≡ false
unfolding check_budget
budget-over env params slot n h k l = ground (arith, has_budget_iff env params slot n h)

line-over :
    (params : TaskParams) (slot : Slot)
    → slot.has_next_token ≡ false
    → (check_line params slot).has_next_token ≡ false
unfolding check_line
line-over params slot h = ground arith

new_line-over :
    (slot : Slot) → slot.has_next_token ≡ false → (find_new_line slot).has_next_token ≡ false
unfolding find_new_line
new_line-over slot h = ground arith

indentation-over :
    (params : TaskParams) (slot : Slot)
    → slot.has_next_token ≡ false
    → (check_indentation params slot).has_next_token ≡ false
unfolding check_indentation
indentation-over params slot h = ground (
  arith,
  line-over params slot h,
  new_line-over slot h,
  new_line-over (check_line params slot) (line-over params slot h),
)

time-over :
    (env : GenEnv) (params : TaskParams) (text : List ℕ) (slot : Slot)
    → slot.has_next_token ≡ false
    → (check_time env params text slot).has_next_token ≡ false
unfolding check_time
time-over env params text slot h = ground arith

eog-over :
    (env : GenEnv) (tok : ℤ) (slot : Slot)
    → slot.has_next_token ≡ false
    → (check_eog env tok slot).has_next_token ≡ false
unfolding check_eog
eog-over env tok slot h = ground arith

limits-over :
    (env : GenEnv) (params : TaskParams) (tok : ℤ) (text : List ℕ) (slot : Slot) (n : ℕ)
    → params.n_predict ≡ pos n
    → 0 < slot.n_decoded
    → n ≤ slot.n_decoded
    → (check_limits env params tok text slot).has_next_token ≡ false
unfolding check_limits
limits-over env params tok text slot n h k l =
    let s1 = check_context env slot in
    let e = context-n_decoded env slot in
    eog-over env tok _ (
      time-over env params text _ (
        indentation-over params (check_budget env params s1)
          (budget-over env params s1 n h (omega (arith, e)) (omega (arith, e)))))

find_full-n_decoded :
    (words : List (List ℕ)) (text : List ℕ) (n : ℕ) (slot : Slot) (best : Option ℕ)
    → (find_full words text n slot best).0.n_decoded ≡ slot.n_decoded
unfolding find_full
find_full-n_decoded [] text n slot best = refl
find_full-n_decoded (w ∷ ws) text n slot best =
    elim (Bool-cases (earlier (full_stop text n w) best)) [
      | inl k ↦
          rw (k, find_full)
            (find_full-n_decoded ws text n
              (record slot { stop = stop_word; stopping_word = w; has_next_token = false })
              (full_stop text n w))
      | inr k ↦ rw (k, find_full) (find_full-n_decoded ws text n slot best)
    ]

send_after-n_decoded :
    (env : GenEnv) (params : TaskParams) (tok : ℤ) (str : List ℕ) (slot : Slot) (found : Option ℕ)
    → (send_after env params tok str (slot, found)).0.n_decoded ≡ slot.n_decoded
unfolding send_after send_rest
send_after-n_decoded env params tok str slot (some p) = refl
send_after-n_decoded env params tok str slot none = ground arith

send_text-n_decoded :
    (env : GenEnv) (params : TaskParams) (slot : Slot) (tok : ℤ) (size : ℕ)
    → (send_text env params slot tok size).0.n_decoded ≡ slot.n_decoded
unfolding send_text
send_text-n_decoded env params slot tok size =
    let str = drop (min slot.n_sent_text (length slot.generated_text)) slot.generated_text in
    let r = find_full params.antiprompt str size slot none in
    send_after-n_decoded env params tok str r.0 r.1
    ∙ find_full-n_decoded params.antiprompt str size slot none

-- Once as many tokens were decoded as the task has to predict, and at least one, process_token ends the
-- generation, whatever the token is.
pub process_token-over :
    (env : GenEnv) (params : TaskParams) (slot : Slot) (tok : ℤ) (text : List ℕ) (n : ℕ)
    → params.n_predict ≡ pos n
    → 0 < slot.n_decoded
    → n ≤ slot.n_decoded
    → (process_token env params slot tok text).0.has_next_token ≡ false
unfolding process_token append_token
process_token-over env params slot tok text n h k l =
    let slot1 = append_token params slot tok text in
    elim (Bool-cases (ltb (validate_utf8 slot1.generated_text) (length slot1.generated_text))) [
      | inl c ↦
          rw (c, process_token)
            (limits-over env params tok text (record slot1 { has_next_token = true }) n h k l)
      | inr c ↦
          let e = send_text-n_decoded env params slot1 tok (length text) in
          rw (c, process_token)
            (limits-over env params tok (send_text env params slot1 tok (length text)).1
              (send_text env params slot1 tok (length text)).0 n h (omega (arith, e))
              (omega (arith, e)))
    ]
