-- ===== src/Slots/Chosen.antt =====
-- core/src/server/server-context.cpp, get_available_slot: what slot a task gets.
use llama_go.Base.{ℕ, ◌≡◌, ◌⊎◌, Bool, true, false, some, List, get_elem?, All, ok}
use llama_go.Task.{Task}
use llama_go.Slots.{Slot, Env, is_processing}
use llama_go.Slots.Select.{uses_similarity, loses_much, choose_slot}
use llama_go.Slots.Choice.{IsOldest}
use llama_go.Slots.Similarity.{IsSimilar, IsOther}

-- Why the slot at the place was chosen: its prompt is similar and no other is more so, or no prompt is
-- similar and the slot is the idle one that was used the longest ago, and its prompt is wanted in the cache.
abbrev pub IsChosen : Env → List Slot → Task → ℕ → Slot → Bool → Type 0
IsChosen env slots task r slot wanted =
    (get_elem? slots r ≡ some slot)
    × (((sim : env.floats.Float) × (uses_similarity env ≡ true)
          × IsSimilar env task sim slot
          × All (IsOther env task sim) slots
          × (wanted ≡ loses_much env sim task (some slot)))
        ⊎ ((wanted ≡ true)
            × (is_processing slot ≡ false)
            × IsOldest slot.t_last_used slots
            × ((uses_similarity env ≡ false) ⊎ All (IsOther env task env.floats.zero_f) slots)))

Chosen : Env → List Slot → Task → Type 0
Chosen env slots task =
    (r : ℕ) × (slot : Slot) × (wanted : Bool) × (choose_slot env slots task ≡ ok (some r, wanted))
    × IsChosen env slots task r slot wanted
