-- ===== src/Generate.antt =====
-- core/src/server/server-context.cpp, process_token with has_budget and find_stopping_strings, and
-- core/src/server/server-common.cpp, validate_utf8: what the server does with a token that was sampled.
-- A text is its bytes. The probabilities of tokens are left out.
pub mod Sent
pub mod Reason
pub mod Budget
pub mod Utf8
pub mod Life
use llama_go.Base.{
  ℕ, zero, suc, ◌+◌, ◌-◌, ◌*◌, ◌/◌, ◌%◌, min, Bool, true, false, not, ◌&&◌, ◌||◌, Option, none,
  some, List, [], ◌∷◌, ◌++◌, ltb, leb, ◌==◌, if◌then◌else◌, length, get_elem?, take, drop, ℤ, pos,
  negsuc, minus_one, ◌==ℤ◌,
}
use llama_go.Task.{Task, TaskParams, StopType, stop_word, stop_limit, stop_eos}
use llama_go.Slots.{Slot}

-- What the code asks of llama.cpp, of the settings and of the clock.
pub record GenEnv : Type 0 where
  -- llama_vocab_is_eog
  pub is_eog : ℤ → Bool
  -- string_find_partial_stop, of the text and the word.
  pub partial_stop : List ℕ → List ℕ → Option ℕ
  pub ctx_shift : Bool
  pub n_predict : ℤ
  -- Whether more than this many milliseconds passed since the generation began.
  pub time_over : ℤ → Bool

-- A byte as validate_utf8 reads it: how many bytes its character needs, and 0 if it starts none of
-- several bytes. The masks 0xE0, 0xF0 and 0xF8 are divisions.
unfoldable pub bytes_needed : ℕ → ℕ
bytes_needed c =
    if c / 32 == 6 then 2 else (if c / 16 == 14 then 3 else (if c / 8 == 30 then 4 else 0))

-- The loop of validate_utf8 on the last k bytes but i - 1, the last first.
unfoldable pub cut_off : List ℕ → ℕ → ℕ → Option ℕ
unfolding bytes_needed
cut_off text i zero = none
cut_off text i (suc k) =
    let rest = cut_off text (suc i) k in
    elim (get_elem? text (length text - i)) [
      | none ↦ none
      | some c ↦ if ltb i (bytes_needed c) then some (length text - i) else rest
    ]

unfoldable pub validate_utf8 : List ℕ → ℕ
unfolding cut_off
validate_utf8 text = elim (cut_off text 1 (min 4 (length text))) [ none ↦ length text | some n ↦ n ]

unfoldable pub starts_with : List ℕ → List ℕ → Bool
starts_with [] text = true
starts_with (w ∷ ws) [] = false
starts_with (w ∷ ws) (c ∷ cs) = w == c && starts_with ws cs

-- std::string::find: `place` is the place of the rest of the text in the text.
unfoldable pub find_str : List ℕ → List ℕ → ℕ → ℕ → Option ℕ
unfolding starts_with
find_str word [] place from = if leb from place && length word == 0 then some place else none
find_str word (c ∷ cs) place from =
    let rest = find_str word cs (suc place) from in
    if leb from place && starts_with word (c ∷ cs) then some place else rest

unfoldable pub full_stop : List ℕ → ℕ → List ℕ → Option ℕ
unfolding find_str
full_stop text last_token_size word =
    find_str word text 0 (length text - (length word + last_token_size))

unfoldable pub earlier : Option ℕ → Option ℕ → Bool
earlier none best = false
earlier (some p) none = true
earlier (some p) (some b) = ltb p b

-- The loop of find_stopping_strings for a full stop.
unfoldable pub find_full : List (List ℕ) → List ℕ → ℕ → Slot → Option ℕ → Slot × Option ℕ
unfolding full_stop earlier
find_full [] text last_token_size slot stop_pos = (slot, stop_pos)
find_full (word ∷ words) text last_token_size slot stop_pos =
    let p = full_stop text last_token_size word in
    let skip = find_full words text last_token_size slot stop_pos in
    let hit =
      find_full words text last_token_size
        (record slot { stop = stop_word; stopping_word = word; has_next_token = false }) p in
    if earlier p stop_pos then hit else skip

-- The same loop for a partial stop.
unfoldable pub find_partial : GenEnv → List (List ℕ) → List ℕ → Option ℕ → Option ℕ
unfolding earlier
find_partial env [] text stop_pos = stop_pos
find_partial env (word ∷ words) text stop_pos =
    let p = env.partial_stop text word in
    let skip = find_partial env words text stop_pos in
    let hit = find_partial env words text p in if earlier p stop_pos then hit else skip

unfoldable pub sub_int : ℤ → ℕ → ℤ
sub_int (pos a) n = if leb n a then pos (a - n) else negsuc (n - a - 1)
sub_int (negsuc a) n = negsuc (a + n)

unfoldable pub is_positive : ℤ → Bool
is_positive (pos (suc n)) = true
is_positive _ = false

-- has_budget; it writes n_remaining.
unfoldable pub has_budget : GenEnv → TaskParams → Slot → Slot × Bool
unfolding sub_int is_positive
has_budget env params slot =
    if params.n_predict ==ℤ minus_one && env.n_predict ==ℤ minus_one
    then (slot, true)
    else (let limit =
          if not (params.n_predict ==ℤ minus_one) then params.n_predict else env.n_predict in
        let n = sub_int limit slot.n_decoded in (record slot { n_remaining = n }, is_positive n))

-- The token is appended to what was generated.
unfoldable pub append_token : TaskParams → Slot → ℤ → List ℕ → Slot
append_token params slot tok text = record slot {
  sampled = tok;
  generated_text = slot.generated_text ++ text;
  generated_tokens =
      if params.return_tokens then slot.generated_tokens ++ tok ∷ [] else slot.generated_tokens;
  has_next_token = true;
}

-- The text from what was sent on is sent.
unfoldable pub send_rest : Slot → Slot × List ℕ
send_rest slot =
    let rest = drop (min slot.n_sent_text (length slot.generated_text)) slot.generated_text in
    (record slot { n_sent_text = slot.n_sent_text + length rest }, rest)

-- A stop word was found or not, in the text from what was sent on.
unfoldable pub send_after : GenEnv → TaskParams → ℤ → List ℕ → Slot × Option ℕ → Slot × List ℕ
unfolding send_rest find_partial
send_after env params tok str_test (slot, some stop_pos) = send_rest (record slot {
  generated_text =
      take (min slot.n_sent_text (length slot.generated_text) + stop_pos) slot.generated_text;
})
send_after env params tok str_test (slot, none) =
    if not (env.is_eog tok)
    then (elim (find_partial env params.antiprompt str_test none) [
      | none ↦ send_rest slot
      | some p ↦ (slot, [])
    ])
    else send_rest slot

-- The part under `!incomplete`: the slot, and the text to send.
unfoldable pub send_text : GenEnv → TaskParams → Slot → ℤ → ℕ → Slot × List ℕ
unfolding find_full send_after
send_text env params slot tok last_token_size =
    let str_test = drop (min slot.n_sent_text (length slot.generated_text)) slot.generated_text in
    send_after env params tok str_test
      (find_full params.antiprompt str_test last_token_size slot none)

unfoldable pub stop_at_limit : Slot → Slot
stop_at_limit slot = record slot { stop = stop_limit; has_next_token = false }

unfoldable pub check_context : GenEnv → Slot → Slot
unfolding stop_at_limit
check_context env slot =
    let p = slot.prompt in
    let t = p.tokens in
    if not env.ctx_shift && leb slot.n_ctx (length t.tokens + 1)
    then stop_at_limit (record slot { truncated = true })
    else slot

unfoldable pub check_budget : GenEnv → TaskParams → Slot → Slot
unfolding stop_at_limit
check_budget env params slot =
    if ltb 0 slot.n_decoded && slot.has_next_token
    then (let r = has_budget env params slot in if not r.1 then stop_at_limit r.0 else r.0)
    else slot

-- The number of spaces and tabs from the place on.
indentation : List ℕ → ℕ
indentation [] = 0
indentation (c ∷ cs) = let rest = indentation cs in if c == 32 || c == 9 then suc rest else 0

less_than : ℕ → ℤ → Bool
less_than n (pos m) = ltb n m
less_than n (negsuc m) = false

unfoldable pub find_new_line : Slot → Slot
unfolding find_str
find_new_line slot = elim (find_str (10 ∷ []) slot.generated_text 0 slot.last_nl_pos) [
  | none ↦ slot
  | some p ↦ record slot { last_nl_pos = p + 1 }
]

unfoldable pub check_line : TaskParams → Slot → Slot
unfolding indentation less_than stop_at_limit
check_line params slot =
    let n_indent = indentation (drop slot.last_nl_pos slot.generated_text) in
    let p = slot.last_nl_pos + n_indent in
    if ltb p (length slot.generated_text) && less_than n_indent params.n_indent
    then stop_at_limit (record slot { generated_text = take p slot.generated_text })
    else slot

unfoldable pub check_indentation : TaskParams → Slot → Slot
unfolding find_new_line check_line is_positive
check_indentation params slot =
    if slot.has_new_line && is_positive params.n_indent
    then find_new_line (if ltb 0 slot.last_nl_pos then check_line params slot else slot)
    else slot

unfoldable pub has_line_feed : List ℕ → Bool
unfolding find_str
has_line_feed text = elim (find_str (10 ∷ []) text 0 0) [ none ↦ false | some p ↦ true ]

unfoldable pub check_time : GenEnv → TaskParams → List ℕ → Slot → Slot
unfolding has_line_feed is_positive stop_at_limit
check_time env params text slot =
    if has_line_feed text
    then (let slot1 = record slot { has_new_line = true } in
        if is_positive params.t_max_predict_ms && env.time_over params.t_max_predict_ms
        then stop_at_limit slot1
        else slot1)
    else slot

unfoldable pub check_eog : GenEnv → ℤ → Slot → Slot
check_eog env tok slot =
    if env.is_eog tok then record slot { stop = stop_eos; has_next_token = false } else slot

unfoldable pub check_limits : GenEnv → TaskParams → ℤ → List ℕ → Slot → Slot
unfolding check_context check_budget check_indentation check_time check_eog
check_limits env params tok text slot = check_eog env tok (
    check_time env params text
      (check_indentation params (check_budget env params (check_context env slot))))

-- Only a streaming task gets a partial response.
unfoldable pub partial_response : TaskParams → List ℕ → Option (List ℕ)
partial_response params text = if params.stream then some text else none

-- process_token: the slot (whose has_next_token is the result), and the text that is sent, if any.
unfoldable pub process_token : GenEnv → TaskParams → Slot → ℤ → List ℕ → Slot × Option (List ℕ)
unfolding append_token send_text check_limits partial_response
process_token env params slot tok text =
    let slot1 = append_token params slot tok text in
    if ltb (validate_utf8 slot1.generated_text) (length slot1.generated_text)
    then (check_limits env params tok text (record slot1 { has_next_token = true }), none)
    else (let r = send_text env params slot1 tok (length text) in
        (check_limits env params tok r.1 r.0, partial_response params r.1))
