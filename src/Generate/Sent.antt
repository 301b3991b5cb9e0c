-- ===== src/Generate/Sent.antt =====
-- core/src/server/server-context.cpp, process_token: what a streaming task is sent.
use llama_go.Base.{
  ℕ, ◌+◌, ◌≤◌, ◌≡◌, refl, sym, ◌∙◌, inl, inr, true, false, Option, none, some, List, [], ◌∷◌, ◌++◌,
  ltb, min, length, take, drop, length-append, take-append, take-drop, take-take, length-take,
  length-drop, take-length, append-nil, Bool-cases, Option-cases, arith, ℤ,
}
use llama_go.Task.{TaskParams, stop_word}
use llama_go.Slots.{Slot}
use llama_go.Generate.{
  GenEnv, partial_response, earlier, full_stop, find_partial, validate_utf8, find_full,
  append_token, send_rest, send_after, send_text, check_context, check_budget, check_indentation,
  check_time, check_eog, check_limits, has_budget, is_positive, process_token,
}

-- What was sent is the first part of what was generated.
pub record IsSent (slot : Slot) (sent : List ℕ) : Type 0 where
  pub within : slot.n_sent_text ≤ length slot.generated_text
  pub same : sent ≡ take slot.n_sent_text slot.generated_text

SameText : Slot → Slot → Type 0
SameText slot slot' =
    (slot'.generated_text ≡ slot.generated_text) × (slot'.n_sent_text ≡ slot.n_sent_text)

IsSent-SameText :
    (slot slot' : Slot) (sent : List ℕ) → SameText slot slot' → IsSent slot sent → IsSent slot' sent
unfolding SameText
IsSent-SameText slot slot' sent e v = record {
  within = rw (e.0, e.1) v.within;
  same = rw (e.0, e.1) v.same;
}

append-IsSent :
    (params : TaskParams) (slot : Slot) (tok : ℤ) (text sent : List ℕ)
    → IsSent slot sent
    → IsSent (append_token params slot tok text) sent
unfolding append_token
append-IsSent params slot tok text sent v = record {
  within = omega (arith, v.within, length-append slot.generated_text text);
  same = v.same ∙ sym (take-append slot.n_sent_text slot.generated_text text v.within);
}

find_full-SameText :
    (words : List (List ℕ)) (text : List ℕ) (n : ℕ) (slot : Slot) (best : Option ℕ)
    → SameText slot (find_full words text n slot best).0
unfolding find_full SameText
find_full-SameText [] text n slot best = (refl, refl)
find_full-SameText (w ∷ ws) text n slot best =
    elim (Bool-cases (earlier (full_stop text n w) best)) [
      | inl k ↦
          rw (k, find_full)
            (find_full-SameText ws text n
              (record slot { stop = stop_word; stopping_word = w; has_next_token = false })
              (full_stop text n w))
      | inr k ↦ rw (k, find_full) (find_full-SameText ws text n slot best)
    ]

min_le : (n m : ℕ) → n ≤ m → min n m ≡ n
min_le n m h = omega arith

send_rest-IsSent :
    (slot : Slot) (sent : List ℕ)
    → IsSent slot sent
    → IsSent (send_rest slot).0 (sent ++ (send_rest slot).1)
unfolding send_rest
send_rest-IsSent slot sent v =
    let n = slot.n_sent_text in
    let text = slot.generated_text in
    let whole : n + length (drop n text) ≡ length text = length-drop n text v.within in
    rw (min_le n (length text) v.within) (record {
      within = omega (arith, whole);
      same = rw (v.same, whole, take-drop n text) (sym (take-length text));
    })

-- What is erased from the text was not sent.
erase-IsSent :
    (slot : Slot) (sent : List ℕ) (stop_pos : ℕ)
    → IsSent slot sent
    → IsSent
        (record slot {
          generated_text =
              take
                (min slot.n_sent_text (length slot.generated_text) + stop_pos)
                slot.generated_text;
        })
        sent
erase-IsSent slot sent stop_pos v =
    let n = slot.n_sent_text in
    let text = slot.generated_text in
    rw (min_le n (length text) v.within) (record {
      within = length-take (n + stop_pos) text n (omega arith) v.within;
      same = v.same ∙ sym (take-take n (n + stop_pos) text (omega arith));
    })

send_after-IsSent :
    (env : GenEnv) (params : TaskParams) (tok : ℤ) (str : List ℕ) (slot : Slot) (found : Option ℕ)
    (sent : List ℕ)
    → IsSent slot sent
    → let r = send_after env params tok str (slot, found) in IsSent r.0 (sent ++ r.1)
unfolding send_after
send_after-IsSent env params tok str slot (some p) sent v =
    send_rest-IsSent _ sent (erase-IsSent slot sent p v)
send_after-IsSent env params tok str slot none sent v = elim (Bool-cases (env.is_eog tok)) [
  | inl k ↦ rw (k, send_after) (send_rest-IsSent slot sent v)
  | inr k ↦ elim (Option-cases (find_partial env params.antiprompt str none)) [
    | inl n ↦ rw (k, n, send_after) (send_rest-IsSent slot sent v)
    | inr (p, n) ↦ rw (k, n, send_after, append-nil) v
  ]
]

send_text-IsSent :
    (env : GenEnv) (params : TaskParams) (slot : Slot) (tok : ℤ) (size : ℕ) (sent : List ℕ)
    → IsSent slot sent
    → let r = send_text env params slot tok size in IsSent r.0 (sent ++ r.1)
unfolding send_text
send_text-IsSent env params slot tok size sent v =
    let str = drop (min slot.n_sent_text (length slot.generated_text)) slot.generated_text in
    let r = find_full params.antiprompt str size slot none in
    send_after-IsSent env params tok str r.0 r.1 sent
      (IsSent-SameText slot r.0 sent (find_full-SameText params.antiprompt str size slot none) v)

budget-SameText :
    (env : GenEnv) (params : TaskParams) (slot : Slot)
    → SameText slot (check_budget env params slot)
unfolding check_budget has_budget SameText
budget-SameText env params slot = ground arith

context-SameText : (env : GenEnv) (slot : Slot) → SameText slot (check_context env slot)
unfolding check_context SameText
context-SameText env slot = ground arith

indentation-SameText :
    (params : TaskParams) (slot : Slot)
    → is_positive params.n_indent ≡ false
    → check_indentation params slot ≡ slot
unfolding check_indentation
indentation-SameText params slot h = ground arith

time-SameText :
    (env : GenEnv) (params : TaskParams) (text : List ℕ) (slot : Slot)
    → SameText slot (check_time env params text slot)
unfolding check_time SameText
time-SameText env params text slot = ground arith

eog-SameText : (env : GenEnv) (tok : ℤ) (slot : Slot) → SameText slot (check_eog env tok slot)
unfolding check_eog SameText
eog-SameText env tok slot = ground arith

limits-IsSent :
    (env : GenEnv) (params : TaskParams) (tok : ℤ) (text : List ℕ) (slot : Slot) (sent : List ℕ)
    → is_positive params.n_indent ≡ false
    → IsSent slot sent
    → IsSent (check_limits env params tok text slot) sent
unfolding check_limits
limits-IsSent env params tok text slot sent h v =
    let s1 = check_context env slot in
    let s2 = check_budget env params s1 in
    let v2 =
      IsSent-SameText s1 s2 sent (budget-SameText env params s1)
        (IsSent-SameText slot s1 sent (context-SameText env slot) v) in
    let v3 : IsSent (check_indentation params s2) sent = rw (indentation-SameText params s2 h) v2 in
    let s3 = check_indentation params s2 in
    let s4 = check_time env params text s3 in
    IsSent-SameText s4 (check_eog env tok s4) sent (eog-SameText env tok s4)
      (IsSent-SameText s3 s4 sent (time-SameText env params text s3) v3)

-- The text that reaches the reader when a token is processed.
abbrev pub sent_by : Option (List ℕ) → List ℕ
sent_by none = []
sent_by (some text) = text

partial-streams :
    (params : TaskParams) (text : List ℕ)
    → params.stream ≡ true
    → partial_response params text ≡ some text
unfolding partial_response
partial-streams params text h = ground arith

-- For a streaming task without an indentation limit, all that was sent together is at any time a first part
-- of the text that was generated: a token that is processed sends exactly what follows what was sent before,
-- and what a stop word erases was not sent.
pub process_token-IsSent :
    (env : GenEnv) (params : TaskParams) (slot : Slot) (tok : ℤ) (text sent : List ℕ)
    → params.stream ≡ true
    → is_positive params.n_indent ≡ false
    → IsSent slot sent
    → let r = process_token env params slot tok text in IsSent r.0 (sent ++ sent_by r.1)
unfolding process_token
process_token-IsSent env params slot tok text sent st h v =
    let slot1 = append_token params slot tok text in
    let v1 = append-IsSent params slot tok text sent v in
    elim (Bool-cases (ltb (validate_utf8 slot1.generated_text) (length slot1.generated_text))) [
      | inl k ↦
          rw (k, process_token, append-nil)
            (limits-IsSent env params tok text (record slot1 { has_next_token = true }) sent h
              (record { within = v1.within; same = v1.same }))
      | inr k ↦
          let r = send_text env params slot1 tok (length text) in
          rw (k, partial-streams params r.1 st, process_token)
            (limits-IsSent env params tok r.1 r.0 (sent ++ r.1) h
              (send_text-IsSent env params slot1 tok (length text) sent v1))
    ]
