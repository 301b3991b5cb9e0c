-- ===== src/Update/Reuse.antt =====
-- core/src/server/server-context.cpp, update_slots: the chunks of the cached prompt that are moved to
-- where the new prompt has them (n_cache_reuse).
pub mod Agreement
use llama_go.Base.{
  ℕ, zero, suc, ◌+◌, Bool, true, false, ◌&&◌, List, [], ◌∷◌, ltb, leb, if◌then◌else◌, length, drop,
  ℤ, Result, ok, err, out_of_fuel,
}
use llama_go.Tokens.{text_prefix}
use llama_go.Update.Shift.{copy_within}

-- The loop over a chunk of n_match tokens.
unfoldable pub copy_chunk : ℕ → List ℤ → ℕ → ℕ → List ℤ
copy_chunk zero xs head_c head_p = xs
copy_chunk (suc n_match) xs head_c head_p =
    copy_chunk n_match (copy_within xs head_c head_p) (suc head_c) (suc head_p)

-- The inner loop: how many tokens behind the heads are the same.
unfoldable pub match_length : List ℤ → List ℤ → ℕ → ℕ → ℕ
match_length xs input head_c head_p = text_prefix (drop head_c xs) (drop head_p input)

-- The loop over the cached tokens: the tokens and n_past that it leaves.
unfoldable pub reuse_chunks : ℕ → List ℤ → List ℤ → ℕ → ℕ → ℕ → ℕ → Result (List ℤ × ℕ)
unfolding match_length copy_chunk
reuse_chunks zero xs input n_cache_reuse head_c head_p n_past = err out_of_fuel
reuse_chunks (suc fuel) xs input n_cache_reuse head_c head_p n_past =
    let go = λ (ys : List ℤ) (c p n : ℕ). reuse_chunks fuel ys input n_cache_reuse c p n in
    if ltb head_c (length xs) && ltb head_p (length input)
    then (let n_match = match_length xs input head_c head_p in
        if leb n_cache_reuse n_match
        then go (copy_chunk n_match xs head_c head_p) (head_c + n_match) (head_p + n_match)
            (n_past + n_match)
        else go xs (suc head_c) head_p n_past)
    else ok (xs, n_past)
