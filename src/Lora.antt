-- ===== src/Lora.antt =====
-- core/src/server/server-common.cpp, the LoRA utilities, and core/src/server/server-context.cpp,
-- construct_lora_list and the search of launch_slot_with_task for the tokens that invoke an aLoRA.
pub mod Invocation
use llama_go.Base.{
  ℕ, zero, suc, ◌-◌, Bool, true, false, not, ◌&&◌, ◌||◌, Option, none, some, List, [], ◌∷◌, ◌==◌,
  if◌then◌else◌, length, get_elem?, ℤ, pos, negsuc, ◌==ℤ◌, Result, ok, err, assert_failed,
}
use llama_go.Task.{LoraInfo}

is_zero : ℤ → Bool
is_zero (pos zero) = true
is_zero _ = false

is_positive : ℤ → Bool
is_positive (pos (suc n)) = true
is_positive _ = false

unfoldable pub all_alora_from : Bool → List LoraInfo → Bool
unfolding is_zero
all_alora_from found [] = found
all_alora_from found (l ∷ ls) =
    let skip = all_alora_from found ls in
    let rest = all_alora_from true ls in
    if is_zero l.scale then skip else (if length l.invocation == 0 then false else rest)

unfoldable pub lora_all_alora : List LoraInfo → Bool
unfolding all_alora_from
lora_all_alora ls = all_alora_from false ls

enabled_from : ℕ → List LoraInfo → List ℕ
unfolding is_positive
enabled_from i [] = []
enabled_from i (l ∷ ls) =
    let rest = enabled_from (suc i) ls in if is_positive l.scale then i ∷ rest else rest

pub lora_get_enabled_ids : List LoraInfo → List ℕ
unfolding enabled_from
lora_get_enabled_ids ls = enabled_from 0 ls

pub are_lora_equal : List LoraInfo → List LoraInfo → Bool
are_lora_equal [] [] = true
are_lora_equal [] (m ∷ ms) = false
are_lora_equal (l ∷ ls) [] = false
are_lora_equal (l ∷ ls) (m ∷ ms) = l.scale ==ℤ m.scale && l.ptr == m.ptr && are_lora_equal ls ms

pub lora_should_clear_cache : List LoraInfo → List LoraInfo → Result Bool
lora_should_clear_cache current next =
    if are_lora_equal current next
    then err assert_failed
    else ok (
        not (length (lora_get_enabled_ids current) == 0 || lora_all_alora current)
        || not (lora_all_alora next))

-- config.find(i)
find_scale : ℕ → List (ℕ × ℤ) → ℤ
find_scale i [] = pos 0
find_scale i ((j, s) ∷ rest) = if i == j then s else find_scale i rest

construct_from : ℕ → List LoraInfo → List (ℕ × ℤ) → List LoraInfo
unfolding find_scale
construct_from i [] config = []
construct_from i (l ∷ ls) config =
    record l { scale = find_scale i config } ∷ construct_from (suc i) ls config

pub construct_lora_list : List LoraInfo → List (ℕ × ℤ) → List LoraInfo
unfolding construct_from
construct_lora_list adapters config = construct_from 0 adapters config

unfoldable pub matches : Option ℤ → Option ℤ → Bool
matches (some x) (some y) = x ==ℤ y
matches _ _ = false

-- The backward search; the argument i is one more than the source's.
unfoldable pub find_invocation : List ℤ → List ℤ → ℕ → ℕ → Option ℕ
unfolding matches
find_invocation invocation tokens zero match_idx = none
find_invocation invocation tokens (suc i) match_idx =
    let next = find_invocation invocation tokens i (match_idx - 1) in
    let over = find_invocation invocation tokens i (length invocation - 1) in
    if matches (get_elem? tokens i) (get_elem? invocation match_idx)
    then (if match_idx == 0 then some i else next)
    else over

unfoldable pub alora_start : List ℤ → List ℤ → Option ℕ
unfolding find_invocation
alora_start invocation tokens =
    find_invocation invocation tokens (length tokens) (length invocation - 1)
