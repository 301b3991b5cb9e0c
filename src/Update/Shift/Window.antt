-- ===== src/Update/Shift/Window.antt =====
-- core/src/server/server-context.cpp, update_slots: what the context shift leaves of the tokens.
use llama_go.Base.{
  ℕ, zero, suc, ◌+◌, ◌-◌, ◌/◌, ◌≤◌, ◌<◌, ◌≡◌, refl, ◌∙◌, ap, sym, subst, true, false, leb, some,
  List, [], ◌∷◌, ◌++◌, ltb, if◌then◌else◌, length, get_elem?, set, take, drop, ℤ, pos, arith, ok,
  err, length_error, length-drop, take-append_length, append-nil, length-append, append_assoc,
  get_elem?-append, take-drop, ◌>>=◌, ◌⊎◌, inl, inr, Bool-cases, ltb→lt,
}
use llama_go.Update.{UpdateEnv}
use llama_go.Slots.{Slot}
use llama_go.Task.{Task}
use llama_go.Tokens.{Tokens, get_text_tokens, insert, clear}
use llama_go.Update.Shift.{
  copy_within, move_down, drop_window, kept, discarded, shift_tokens, shift_slot, needs_shift,
}

-- A write right behind a prefix.
set-append_length :
    (front : List ℤ) (b x : ℤ) (back : List ℤ)
    → set (front ++ b ∷ back) (length front) x ≡ front ++ x ∷ back
set-append_length [] b x back = refl
set-append_length (a ∷ front) b x back = ap (◌∷◌ a) (set-append_length front b x back)

get_elem?-append_length :
    (front : List ℤ) (b : ℤ) (back : List ℤ) → get_elem? (front ++ b ∷ back) (length front) ≡ some b
get_elem?-append_length [] b back = refl
get_elem?-append_length (a ∷ front) b back = get_elem?-append_length front b back

-- A round of the loop: the first token behind the window goes to the place of the first token in it.
copy_within-window :
    (front : List ℤ) (g : ℤ) (gap : List ℤ) (x : ℤ) (ys : List ℤ)
    → copy_within (front ++ g ∷ (gap ++ x ∷ ys)) (length front + suc (length gap)) (length front)
      ≡ (front ++ x ∷ []) ++ ((gap ++ x ∷ []) ++ ys)
unfolding copy_within
copy_within-window front g gap x ys = rw (
  copy_within,
  get_elem?-append front (g ∷ (gap ++ x ∷ ys)) (suc (length gap)),
  get_elem?-append_length gap x ys,
  set-append_length front g x (gap ++ x ∷ ys),
  append_assoc,
  append_assoc,
)

-- The loop moves what stands behind the window down to where the window starts.
move_down-window :
    (front gap ys : List ℤ) (i d : ℕ)
    → i ≡ length front + length gap
    → d ≡ length gap
    → 0 < d
    → (rest : List ℤ) × (move_down (length ys) (front ++ (gap ++ ys)) i d ≡ (front ++ ys) ++ rest)
      × (length rest ≡ length gap)
unfolding move_down
move_down-window front [] ys i d p q h = absurd (omega arith)
move_down-window front (g ∷ gap) [] i d p q h = (g ∷ gap, rw (append-nil, append-nil), refl)
move_down-window front (g ∷ gap) (x ∷ ys) i d p q h =
    let l = length-append gap (x ∷ []) in
    let (rest, e, m) =
      move_down-window (front ++ x ∷ []) (gap ++ x ∷ []) ys (suc i) d
        (omega (arith, l, length-append front (x ∷ []))) (omega (arith, l)) h in
    let place : i - d ≡ length front = omega arith in
    let step =
      ap (λ j. copy_within (front ++ g ∷ (gap ++ x ∷ ys)) j (i - d)) p
      ∙ ap (copy_within (front ++ g ∷ (gap ++ x ∷ ys)) (length front + suc (length gap))) place
      ∙ copy_within-window front g gap x ys in
    (
      rest,
      ap (λ zs. move_down (length ys) zs (suc i) d) step
          ∙ e
          ∙ ap (λ zs. zs ++ rest) (append_assoc front (x ∷ []) ys),
      m ∙ l ∙ omega arith,
    )

take-append-length : (n : ℕ) (xs ys : List ℤ) → n ≡ length xs → take n (xs ++ ys) ≡ xs
take-append-length n xs ys h = ap (λ k. take k (xs ++ ys)) h ∙ take-append_length xs ys

-- The slot with the tokens that a shift left.
moved_to : Slot → Tokens → Slot
moved_to slot ts =
    let p = slot.prompt in record slot { prompt = record p { tokens = ts }; truncated = true }

window-parts :
    (front gap ys : List ℤ)
    → 0 < length gap
    → drop_window (front ++ (gap ++ ys)) (length front) (length gap) ≡ ok (front ++ ys)
unfolding drop_window
window-parts front gap ys h =
    let l = length-append front (gap ++ ys) in
    let m = length-append gap ys in
    let n = length-append front ys in
    let xs = front ++ (gap ++ ys) in
    let keep = length front + length gap in
    let (rest, e, k) = move_down-window front gap ys keep (length gap) refl refl h in
    let rounds : length xs - keep ≡ length ys = omega (arith, l, m) in
    let size : length xs - length gap ≡ length (front ++ ys) = omega (arith, l, m, n) in
    let moved = ap (λ r. move_down r xs keep (length gap)) rounds ∙ e in
    let fits : ltb (length xs) (length gap) ≡ false = ground (arith, l, m) in
    rw (fits, drop_window)
      (ap ok (
        ap (take (length xs - length gap)) moved
        ∙ take-append-length (length xs - length gap) (front ++ ys) rest size))

length-take_le : (n : ℕ) (xs : List ℤ) → n ≤ length xs → length (take n xs) ≡ n
length-take_le zero xs h = refl
length-take_le (suc n) [] h = absurd (omega arith)
length-take_le (suc n) (x ∷ xs) h = ap suc (length-take_le n xs (omega arith))

kept_le : (env : UpdateEnv) (slot : Slot) (task : Task) → kept env slot task ≤ slot.n_ctx - 4
unfolding kept
kept_le env slot task = ground arith

-- The window, if it ends within the tokens, is what the shift removes: what stands before it stays, and
-- what stands behind it follows.
pub drop_window_middle :
    (xs : List ℤ) (n_keep n_discard : ℕ)
    → 0 < n_discard
    → n_keep + n_discard ≤ length xs
    → drop_window xs n_keep n_discard ≡ ok (take n_keep xs ++ drop n_discard (drop n_keep xs))
drop_window_middle xs n_keep n_discard h k =
    let back = drop n_keep xs in
    let l : n_keep + length back ≡ length xs = length-drop n_keep xs (omega arith) in
    let front_size : length (take n_keep xs) ≡ n_keep = length-take_le n_keep xs (omega arith) in
    let gap_size : length (take n_discard back) ≡ n_discard =
      length-take_le n_discard back (omega (arith, l)) in
    let whole = ap (λ zs. take n_keep xs ++ zs) (take-drop n_discard back) ∙ take-drop n_keep xs in
    subst (λ zs. drop_window zs n_keep n_discard ≡ ok (take n_keep xs ++ drop n_discard back)) whole
      (at_sizes n_keep n_discard (take n_keep xs) (take n_discard back) (drop n_discard back)
        front_size gap_size h)
  where
    at_sizes :
        (k d : ℕ) (front gap ys : List ℤ)
        → length front ≡ k
        → length gap ≡ d
        → 0 < d
        → drop_window (front ++ (gap ++ ys)) k d ≡ ok (front ++ ys)
    at_sizes k d front gap ys p q h =
        ap (λ j. drop_window (front ++ (gap ++ ys)) j d) (sym p)
        ∙ ap (drop_window (front ++ (gap ++ ys)) (length front)) (sym q)
        ∙ window-parts front gap ys (omega arith)

-- A shift of a text prompt that fills its context, with no number of tokens to discard given, succeeds:
-- it keeps the first n_keep tokens and discards half of the others, after which the slot does not need
-- a shift.
pub shift_slot-has_room :
    (env : UpdateEnv) (slot : Slot) (task : Task)
    → slot.prompt.tokens.has_mtmd ≡ false
    → 4 ≤ slot.n_ctx
    → slot.n_ctx ≤ length slot.prompt.tokens.tokens + 1
    → length slot.prompt.tokens.tokens ≤ slot.n_ctx
    → task.params.n_discard ≡ pos 0
    → (s : Slot) × (shift_slot env slot task ≡ ok s)
      × (s.prompt.tokens.tokens
          ≡ take (kept env slot task) slot.prompt.tokens.tokens
            ++ drop
                ((length slot.prompt.tokens.tokens - kept env slot task) / 2)
                (drop (kept env slot task) slot.prompt.tokens.tokens))
      × (needs_shift s ≡ false)
unfolding shift_slot get_text_tokens insert shift_tokens discarded needs_shift clear
shift_slot-has_room env slot task m c full fits d =
    let xs = slot.prompt.tokens.tokens in
    let k = kept env slot task in
    let n = (length xs - k) / 2 in
    let bound : k ≤ slot.n_ctx - 4 = kept_le env slot task in
    let e = drop_window_middle xs k n (omega arith) (omega arith) in
    let ys = take k xs ++ drop n (drop k xs) in
    let p = slot.prompt in
    let s = record slot {
      prompt = record p { tokens = record (clear p.tokens) { tokens = ys } };
      truncated = true;
    } in
    let asked : discarded task.params.n_discard (length xs - k) ≡ pos n = rw d in
    let size : length ys + 1 < slot.n_ctx = omega (
      arith,
      length-append (take k xs) (drop n (drop k xs)),
      length-take_le k xs (omega arith),
      length-drop k xs (omega arith),
      length-drop n (drop k xs) (omega (arith, length-drop k xs (omega arith))),
    ) in
    let room : leb slot.n_ctx (length ys + 1) ≡ false = ground arith in
    (s, rw (m, asked, e, shift_slot), refl, ground arith)

-- With a window that reaches beyond the tokens the loop does nothing.
drop_window_beyond :
    (xs : List ℤ) (n_keep n_discard : ℕ)
    → length xs < n_keep + n_discard
    → drop_window xs n_keep n_discard ≡ (
        if ltb (length xs) n_discard
        then err length_error
        else ok (take (length xs - n_discard) xs))
unfolding drop_window move_down
drop_window_beyond xs n_keep n_discard h =
    let rounds : length xs - (n_keep + n_discard) ≡ 0 = omega arith in rw (rounds, drop_window) refl

shift_slot_window :
    (env : UpdateEnv) (slot : Slot) (task : Task) (n : ℕ)
    → slot.prompt.tokens.has_mtmd ≡ false
    → task.params.n_discard ≡ pos (suc n)
    → shift_slot env slot task ≡ (
        drop_window slot.prompt.tokens.tokens (kept env slot task) (suc n) >>= λ ys.
        insert (clear slot.prompt.tokens) ys >>= λ ts. ok (moved_to slot ts))
unfolding shift_slot get_text_tokens shift_tokens discarded moved_to
shift_slot_window env slot task n m d = rw (m, d, shift_slot)

-- In a context of at least 4 places, a text prompt whose request gives a number of tokens to discard that, with the first n_keep tokens,
-- reaches beyond the prompt: the number is not cut down to what may be discarded. Up to the number of all
-- tokens, the shift succeeds and leaves fewer than the n_keep tokens that it is to keep; beyond that
-- number the vector refuses its new size.
pub shift_slot-loses_kept :
    (env : UpdateEnv) (slot : Slot) (task : Task) (n : ℕ)
    → slot.prompt.tokens.has_mtmd ≡ false
    → 4 ≤ slot.n_ctx
    → task.params.n_discard ≡ pos (suc n)
    → length slot.prompt.tokens.tokens < kept env slot task + suc n
    → ((suc n ≤ length slot.prompt.tokens.tokens)
        × (s : Slot) × (shift_slot env slot task ≡ ok s)
        × (s.prompt.tokens.tokens
            ≡ take (length slot.prompt.tokens.tokens - suc n) slot.prompt.tokens.tokens)
        × (length s.prompt.tokens.tokens < kept env slot task))
      ⊎ ((length slot.prompt.tokens.tokens < suc n) × (shift_slot env slot task ≡ err length_error))
unfolding insert clear moved_to
shift_slot-loses_kept env slot task n m c d h =
    let xs = slot.prompt.tokens.tokens in
    let e = drop_window_beyond xs (kept env slot task) (suc n) h in
    let by_window = shift_slot_window env slot task n m d in
    elim (Bool-cases (ltb (length xs) (suc n))) [
      | inl b ↦ inr (ltb→lt (length xs) (suc n) b, rw (by_window, e, b))
      | inr b ↦
          let le : suc n ≤ length xs = ground arith in
          inl (
            le,
            moved_to slot
                (record (clear slot.prompt.tokens) { tokens = take (length xs - suc n) xs }),
            rw (by_window, e, b, m),
            refl,
            omega (arith, length-take_le (length xs - suc n) xs (omega arith)),
          )
    ]
