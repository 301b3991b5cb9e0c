-- ===== src/Update/Shift.antt =====
-- core/src/server/server-context.cpp, update_slots: the context shift.
pub mod Window
use llama_go.Base.{
  ℕ, zero, suc, ◌+◌, ◌-◌, ◌/◌, min, Bool, true, false, not, ◌&&◌, ◌||◌, Option, none, some, List,
  [], ◌∷◌, ◌++◌, replicate, ltb, leb, if◌then◌else◌, length, get_elem?, set, take, ℤ, pos, negsuc,
  Result, ok, err, assert_failed, length_error, out_of_bounds, ◌>>=◌,
}
use llama_go.Tokens.{Tokens, clear, insert, get_text_tokens}
use llama_go.Task.{Task, ErrorType, server, is_parent, is_child}
use llama_go.Slots.{Slot, SlotState, generating}
use llama_go.Update.{UpdateEnv}

-- A write of new_tokens[to] = new_tokens[from], where `from` is within the list.
unfoldable pub copy_within : List ℤ → ℕ → ℕ → List ℤ
copy_within xs from to = elim (get_elem? xs from) [ none ↦ xs | some x ↦ set xs to x ]

-- The loop from place i on, with as many rounds left as places.
unfoldable pub move_down : ℕ → List ℤ → ℕ → ℕ → List ℤ
unfolding copy_within
move_down zero xs i n_discard = xs
move_down (suc rounds) xs i n_discard =
    move_down rounds (copy_within xs i (i - n_discard)) (suc i) n_discard

-- The loop and the resize. A size below zero wraps around, and the vector refuses it.
unfoldable pub drop_window : List ℤ → ℕ → ℕ → Result (List ℤ)
unfolding move_down
drop_window xs n_keep n_discard =
    if ltb (length xs) n_discard
    then err length_error
    else ok (
        take (length xs - n_discard)
          (move_down (length xs - (n_keep + n_discard)) xs (n_keep + n_discard) n_discard))

-- A negative n_discard: the loop starts beyond the end if n_keep is less than what it adds, and else
-- it writes beyond the end.
unfoldable pub shift_tokens : List ℤ → ℕ → ℤ → Result (List ℤ)
unfolding drop_window
shift_tokens xs n_keep (pos n) = drop_window xs n_keep n
shift_tokens xs n_keep (negsuc n) =
    if leb n_keep n then ok (xs ++ replicate (suc n) (pos 0)) else err out_of_bounds

-- A negative number keeps the whole prompt.
asked_keep : ℤ → ℕ → ℕ
asked_keep (pos k) n = k
asked_keep (negsuc k) n = n

-- n_keep, for a context of at least 4 places: the source's int is below zero in a smaller one.
unfoldable pub kept : UpdateEnv → Slot → Task → ℕ
unfolding asked_keep
kept env slot task =
    let p = task.params in
    let n = asked_keep p.n_keep (length task.tokens.tokens) in
    min (slot.n_ctx - 4) (if env.add_bos_token then n + 1 else n)

-- n_discard, which is half of what is left if it is 0.
unfoldable pub discarded : ℤ → ℕ → ℤ
discarded (pos zero) n_left = pos (n_left / 2)
discarded n n_left = n

unfoldable pub needs_shift : Slot → Bool
needs_shift slot =
    let p = slot.prompt in is_generating slot.state && leb slot.n_ctx (length p.tokens.tokens + 1)
  where
    is_generating : SlotState → Bool
    is_generating generating = true
    is_generating _ = false

unfoldable pub shift_slot : UpdateEnv → Slot → Task → Result Slot
unfolding kept discarded shift_tokens
shift_slot env slot task =
    let p = slot.prompt in
    let params = task.params in
    let tokens = p.tokens in
    if tokens.has_mtmd
    then err assert_failed
    else (let n_keep = kept env slot task in
        let n_discard = discarded params.n_discard (length tokens.tokens - n_keep) in
        get_text_tokens tokens >>= λ xs. shift_tokens xs n_keep n_discard >>= λ ys.
        insert (clear tokens) ys >>= λ ts.
        ok (record slot { prompt = record p { tokens = ts }; truncated = true }))

-- What becomes of a slot that is full.
pub data Shifted : Type 0 where
  refused : ErrorType → Shifted
  shifted : Slot → Shifted

unfoldable pub context_shift : UpdateEnv → Slot → Task → Result Shifted
unfolding shift_slot
context_shift env slot task =
    let gen = env.gen in
    let e = env.env in
    if not gen.ctx_shift
    then ok (refused server)
    else (if e.has_mctx
        then err assert_failed
        else (if is_parent task || is_child task.info
            then ok (refused server)
            else (shift_slot env slot task >>= λ s. ok (shifted s))))
