-- ===== src/Tokens.antt =====
-- core/src/server/server-common.h and server-common.cpp, server_tokens: the token list of a prompt,
-- where a media chunk (an image or a sound) fills several places with LLAMA_TOKEN_NULL and a map
-- from the first of these places remembers the chunk.
pub mod Segments
pub mod Edits
pub mod Validity
pub mod Prefix
pub mod KeepFirst
pub mod Torn
use llama_go.Base.{
  ℕ, zero, suc, ◌+◌, ◌-◌, min, Bool, true, false, not, ◌&&◌, Option, none, some, List, [], ◌∷◌,
  ◌++◌, ltb, leb, ◌==◌, if◌then◌else◌, length, get_elem?, set, take, replicate, keep, ℤ, minus_one,
  ◌==ℤ◌, pos, negsuc, Result, ok, err, assert_failed, runtime_error, out_of_fuel, ◌>>=◌,
}

-- LLAMA_TOKEN_NULL
abbrev pub null_token : ℤ
null_token = minus_one

-- An mtmd_input_chunk of media, as its accessors report it.
pub record Chunk : Type 0 where
  pub id : ℕ
  pub n_tokens : ℕ
  pub n_pos : ℕ

-- What mtmd_input_chunk_get_type and its accessors tell of a chunk that is pushed.
pub data InputChunk : Type 0 where
  image audio : Chunk → InputChunk
  text_chunk : List ℤ → InputChunk
  other_chunk : InputChunk

pub record Tokens : Type 0 where
  pub has_mtmd : Bool
  pub map_idx_to_media : List (ℕ × Chunk)
  pub tokens : List ℤ

pub size : Tokens → ℕ
size t = length t.tokens

pub empty : Tokens → Bool
empty t = length t.tokens == 0

unfoldable pub clear : Tokens → Tokens
clear t = record t { map_idx_to_media = []; tokens = [] }

-- std::map: the keys rise, and a write at a key that is there replaces the value.
pub media_set : ℕ → Chunk → List (ℕ × Chunk) → List (ℕ × Chunk)
media_set k c [] = (k, c) ∷ []
media_set k c ((j, d) ∷ m) =
    if ltb k j
    then (k, c) ∷ (j, d) ∷ m
    else (if k == j then (k, c) ∷ m else (j, d) ∷ media_set k c m)

pub media_find : ℕ → List (ℕ × Chunk) → Option Chunk
media_find k [] = none
media_find k ((j, d) ∷ m) = if k == j then some d else media_find k m

pub pos_shift : List (ℕ × Chunk) → ℕ → ℕ
pos_shift [] res = res
pos_shift ((k, c) ∷ m) res = pos_shift m (res + c.n_pos - c.n_tokens)

-- Each chunk takes its n_tokens out of the count, so the truncated subtraction is exact.
pub pos_next : Tokens → ℕ
unfolding pos_shift
pos_next t =
    if not t.has_mtmd then length t.tokens else pos_shift t.map_idx_to_media (length t.tokens)

pub find_chunk : Tokens → ℕ → Result Chunk
find_chunk t idx = elim (media_find idx t.map_idx_to_media) [
  | none ↦ err runtime_error
  | some c ↦ ok c
]

unfoldable pub push_token : Tokens → ℤ → Result Tokens
push_token t tok =
    if tok ==ℤ null_token
    then err runtime_error
    else ok (record t { tokens = t.tokens ++ tok ∷ [] })

pub push_tokens : Tokens → List ℤ → Result Tokens
push_tokens t [] = ok t
push_tokens t (x ∷ xs) = push_token t x >>= λ t'. push_tokens t' xs

unfoldable pub push_media : Tokens → Chunk → Result Tokens
push_media t c =
    if t.has_mtmd
    then ok (record t {
      map_idx_to_media = media_set (length t.tokens) c t.map_idx_to_media;
      tokens = t.tokens ++ replicate c.n_tokens null_token;
    })
    else err assert_failed

pub push_chunk : Tokens → InputChunk → Result Tokens
unfolding push_media
push_chunk t (image c) = push_media t c
push_chunk t (audio c) = push_media t c
push_chunk t (text_chunk xs) = push_tokens t xs
push_chunk t other_chunk = err assert_failed

-- The loop over the media of the tokens that are appended, as it is written: the iterator is never
-- advanced, so a round leaves the list to go through as it was.
merge_media : ℕ → Tokens → List (ℕ × Chunk) → ℕ → Result Tokens
merge_media fuel t [] start = ok t
merge_media zero t ((k, c) ∷ m) start = err out_of_fuel
merge_media (suc fuel) t ((k, c) ∷ m) start =
    merge_media fuel (record t { map_idx_to_media = media_set (start + k) c t.map_idx_to_media })
      ((k, c) ∷ m) start

-- push_back(server_tokens &)
pub push_back : ℕ → Tokens → Tokens → Result Tokens
unfolding merge_media push_tokens
push_back fuel t u = push_tokens t u.tokens >>= λ t'.
    if u.has_mtmd
    then (if t.has_mtmd then merge_media fuel t' u.map_idx_to_media (size t) else err assert_failed)
    else ok t'

unfoldable pub insert : Tokens → List ℤ → Result Tokens
insert t inp = if t.has_mtmd then err assert_failed else ok (record t { tokens = t.tokens ++ inp })

unfoldable pub get_text_tokens : Tokens → Result (List ℤ)
get_text_tokens t = if t.has_mtmd then err assert_failed else ok t.tokens

pub set_token : Tokens → ℕ → ℤ → Result Tokens
set_token t p id =
    if t.has_mtmd then err assert_failed else ok (record t { tokens = set t.tokens p id })

abbrev is_null_at : List ℤ → ℕ → Bool
is_null_at xs i = elim (get_elem? xs i) [ none ↦ false | some x ↦ x ==ℤ null_token ]

-- The test of keep_first that no image is cut.
pub keep_check : Tokens → ℕ → Result (Unit {0})
keep_check t zero = ok tt
keep_check t (suc m) =
    if is_null_at t.tokens m && is_null_at t.tokens (suc m)
    then find_chunk t m >>= (λ _. ok tt)
    else ok tt

unfoldable pub keep_first : Tokens → ℕ → Result Tokens
unfolding keep_check
keep_first t n =
    if not (leb n (length t.tokens))
    then err assert_failed
    else (if t.has_mtmd
        then (if n == length t.tokens
            then ok t
            else keep_check t n >>= λ _. ok (record t {
              map_idx_to_media = keep (λ e. ltb e.0 n) t.map_idx_to_media;
              tokens = take n t.tokens;
            }))
        else ok (record t { tokens = take n t.tokens }))

-- The loop of get_common_prefix with no media.
unfoldable pub text_prefix : List ℤ → List ℤ → ℕ
text_prefix [] ys = 0
text_prefix (x ∷ xs) [] = 0
text_prefix (x ∷ xs) (y ∷ ys) = if x ==ℤ y then suc (text_prefix xs ys) else 0

data Places : Type 0 where
  both_null same differ : Places

abbrev compare_places : ℤ → ℤ → Places
compare_places x y =
    if x ==ℤ null_token && y ==ℤ null_token then both_null else (if x ==ℤ y then same else differ)

compare_at : Tokens → Tokens → ℕ → Places
compare_at a b i = elim (get_elem? a.tokens i) [
  | none ↦ differ
  | some x ↦ elim (get_elem? b.tokens i) [ none ↦ differ | some y ↦ compare_places x y ]
]

-- The loop of get_common_prefix with media, from place i on. A round moves on by at least one place.
pub media_prefix : ℕ → Tokens → Tokens → ℕ → Result ℕ
unfolding compare_at
media_prefix zero a b i = err out_of_fuel
media_prefix (suc fuel) a b i =
    let skip = λ (k : ℕ). media_prefix fuel a b k in
    let max_idx = min (length a.tokens) (length b.tokens) in
    if not (ltb i max_idx) then ok max_idx else elim (compare_at a b i) [
      | both_null ↦
          (find_chunk a i >>= λ c. find_chunk b i >>= λ d.
          if c.id == d.id && c.n_tokens == d.n_tokens
          then (elim (ltb 0 c.n_tokens) [
            | true ↦ skip (i + c.n_tokens)
            | false ↦ err assert_failed
          ])
          else ok i)
      | same ↦ skip (suc i)
      | differ ↦ ok i
    ]

pub get_common_prefix : Tokens → Tokens → Result ℕ
unfolding media_prefix text_prefix
get_common_prefix a b =
    if not a.has_mtmd
    then ok (text_prefix a.tokens b.tokens)
    else media_prefix (suc (length a.tokens)) a b 0

-- t < 0 || t >= n_vocab
unfoldable pub in_vocab : ℕ → ℤ → Bool
in_vocab n_vocab (pos t) = ltb t n_vocab
in_vocab n_vocab (negsuc t) = false

-- The loop of validate from place i on.
unfoldable pub validate_from : ℕ → ℕ → Tokens → ℕ → Result Bool
unfolding in_vocab
validate_from zero n_vocab t i = err out_of_fuel
validate_from (suc fuel) n_vocab t i =
    let skip = λ (k : ℕ). validate_from fuel n_vocab t k in
    elim (get_elem? t.tokens i) [
      | none ↦ ok true
      | some x ↦ elim (x ==ℤ null_token) [
        | true ↦ elim (find_chunk t i) [ ok c ↦ skip (i + c.n_tokens) | err e ↦ ok false ]
        | false ↦ elim (in_vocab n_vocab x) [ true ↦ skip (suc i) | false ↦ ok false ]
      ]
    ]

unfoldable pub validate : ℕ → Tokens → Result Bool
unfolding validate_from
validate n_vocab t = validate_from (suc (length t.tokens)) n_vocab t 0

-- detokenize before the library's common_detokenize: the text tokens.
pub text_tokens : Tokens → List ℤ
text_tokens t = keep (λ x. not (x ==ℤ null_token)) t.tokens
