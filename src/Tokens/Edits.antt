-- ===== src/Tokens/Edits.antt =====
-- core/src/server/server-common.cpp, server_tokens: appending to a token list, and the position that
-- follows it.
use native.Mathlib.Nat.{zero-add}
use llama_go.Base.{
  ℕ, zero, suc, ◌+◌, ◌-◌, ◌≤◌, ◌≡◌, ◌≢◌, refl, true, false, List, [], ◌∷◌, ◌++◌, append-nil,
  append_assoc, ltb, length, All, arith, ℤ, ◌==ℤ◌, ok, ◌∙◌, Result-cases, inl, inr,
}
use llama_go.Tokens.{
  Chunk, Tokens, null_token, size, media_set, image, audio, push_media, push_token, push_tokens,
  push_chunk, push_back, merge_media, pos_next, pos_shift,
}
use llama_go.Tokens.Segments.{
  Segment, word, media, IsSegment, IsValid, places, width, positions, media_from, build,
  length-places, places-append, media_from-append, media_from_below,
}

media_set_end :
    (k : ℕ) (c : Chunk) (m : List (ℕ × Chunk))
    → All (λ e. ltb e.0 k ≡ true) m
    → media_set k c m ≡ m ++ (k, c) ∷ []
unfolding media_set
media_set_end k c [] h = refl
media_set_end k c ((j, d) ∷ m) h = ground (arith, media_set_end k c m h.1)

-- Appending a text token that is not LLAMA_TOKEN_NULL appends one word to the meaning of the token
-- list.
pub push_token-build :
    (xs : List Segment) (t : ℤ)
    → IsSegment (word t)
    → push_token (build xs) t ≡ ok (build (xs ++ word t ∷ []))
unfolding push_token
push_token-build xs t h =
    rw (h, places-append xs (word t ∷ []), media_from-append 0 xs (word t ∷ []), append-nil)

push_media-build :
    (xs : List Segment) (c : Chunk)
    → IsValid xs
    → push_media (build xs) c ≡ ok (build (xs ++ media c ∷ []))
unfolding push_media
push_media-build xs c v = rw (
  length-places xs,
  media_set_end (width xs) c (media_from 0 xs) (rw zero-add at (media_from_below 0 xs v)),
  places-append xs (media c ∷ []),
  media_from-append 0 xs (media c ∷ []),
  append-nil,
  zero-add,
)

pos_shift-media_from :
    (k res : ℕ) (xs : List Segment)
    → width xs ≤ res
    → pos_shift (media_from k xs) res + width xs ≡ res + positions xs
unfolding pos_shift
pos_shift-media_from k res [] h = omega arith
pos_shift-media_from k res (word t ∷ xs) h =
    omega (arith, pos_shift-media_from (suc k) res xs (omega arith))
pos_shift-media_from k res (media c ∷ xs) h =
    omega
      (arith, pos_shift-media_from (k + c.n_tokens) (res + c.n_pos - c.n_tokens) xs (omega arith))

-- Appending an image or a sound to a token list with a meaning appends the chunk to the meaning: its
-- places are filled, and the map remembers it at the first of them.
pub push_chunk-build :
    (xs : List Segment) (c : Chunk)
    → IsValid xs
    → (push_chunk (build xs) (image c) ≡ ok (build (xs ++ media c ∷ [])))
      × (push_chunk (build xs) (audio c) ≡ ok (build (xs ++ media c ∷ [])))
unfolding push_chunk
push_chunk-build xs c v = (push_media-build xs c v, push_media-build xs c v)

-- The next position of a token list is the number of positions that its segments take: one for a
-- word, and for a media chunk what the chunk reports.
pub pos_next-build : (xs : List Segment) → pos_next (build xs) ≡ positions xs
unfolding pos_next
pos_next-build xs = omega (
  arith,
  pos_shift-media_from 0 (length (places xs)) xs (omega (arith, length-places xs)),
  length-places xs,
)

merge_media_never :
    (fuel : ℕ) (t t' : Tokens) (k : ℕ) (c : Chunk) (m : List (ℕ × Chunk)) (start : ℕ)
    → merge_media fuel t ((k, c) ∷ m) start ≢ ok t'
unfolding merge_media
merge_media_never zero t t' k c m start e = cc
merge_media_never (suc fuel) t t' k c m start e = merge_media_never fuel _ t' k c m start e

push_tokens-All :
    (t : Tokens) (xs : List ℤ)
    → All (λ x. (x ==ℤ null_token) ≡ false) xs
    → push_tokens t xs ≡ ok (record t { tokens = t.tokens ++ xs })
unfolding push_tokens push_token
push_tokens-All t [] h = rw append-nil
push_tokens-All t (x ∷ xs) h =
    rw (h.0, push_token)
      (push_tokens-All (record t { tokens = t.tokens ++ x ∷ [] }) xs h.1 ∙ rw append_assoc)

-- Text token lists are appended whole, whatever the bound on the loop over the media.
pub push_back-text :
    (fuel : ℕ) (t u : Tokens)
    → u.has_mtmd ≡ false
    → All (λ x. (x ==ℤ null_token) ≡ false) u.tokens
    → push_back fuel t u ≡ ok (record t { tokens = t.tokens ++ u.tokens })
unfolding push_back
push_back-text fuel t u h k = rw (push_tokens-All t u.tokens k, h)

-- A token list that holds a media chunk is never appended: however many rounds the loop over the
-- media is given, the result is an error or the loop goes on.
pub push_back-media_never :
    (fuel : ℕ) (t u t' : Tokens) (k : ℕ) (c : Chunk) (m : List (ℕ × Chunk))
    → u.has_mtmd ≡ true
    → u.map_idx_to_media ≡ (k, c) ∷ m
    → push_back fuel t u ≢ ok t'
unfolding push_back
push_back-media_never fuel t u t' k c m h e r = elim (Result-cases (push_tokens t u.tokens)) [
  | inl (a, p) ↦ ground (arith, merge_media_never fuel a t' k c m (size t))
  | inr (x, p) ↦ ground arith
]
