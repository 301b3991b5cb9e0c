-- ===== src/Tokens/Segments.antt =====
-- The meaning of a token list (core/src/server/server-common.cpp, server_tokens): a sequence of
-- segments, each a word of text or a whole media chunk. `build` lays the segments out.
use native.Mathlib.Nat.{add-zero}
use llama_go.Base.{
  ℕ, suc, ◌+◌, ◌-◌, ◌<◌, ◌≤◌, ◌≡◌, refl, ap, sym, ◌∙◌, true, false, none, some, List, [], ◌∷◌, ◌++◌,
  append_assoc, ltb, length, get_elem?, replicate, All, arith, ℤ, ◌==ℤ◌, ok, err, runtime_error,
  length-append, length-replicate, get_elem?-append,
}
use llama_go.Tokens.{Chunk, Tokens, null_token, media_find, find_chunk}

pub data Segment : Type 0 where
  word : ℤ → Segment
  media : Chunk → Segment

abbrev pub IsSegment : Segment → Type 0
IsSegment (word t) = (t ==ℤ null_token) ≡ false
IsSegment (media c) = 0 < c.n_tokens

abbrev pub IsValid : List Segment → Type 0
IsValid = All IsSegment

abbrev pub places : List Segment → List ℤ
places [] = []
places (word t ∷ xs) = t ∷ places xs
places (media c ∷ xs) = replicate c.n_tokens null_token ++ places xs

-- How many places the segments fill.
abbrev pub width : List Segment → ℕ
width [] = 0
width (word t ∷ xs) = suc (width xs)
width (media c ∷ xs) = c.n_tokens + width xs

-- How many positions of the model's sequence the segments take.
abbrev pub positions : List Segment → ℕ
positions [] = 0
positions (word t ∷ xs) = suc (positions xs)
positions (media c ∷ xs) = c.n_pos + positions xs

abbrev pub media_from : ℕ → List Segment → List (ℕ × Chunk)
media_from k [] = []
media_from k (word t ∷ xs) = media_from (suc k) xs
media_from k (media c ∷ xs) = (k, c) ∷ media_from (k + c.n_tokens) xs

abbrev pub build : List Segment → Tokens
build xs = record { has_mtmd = true; map_idx_to_media = media_from 0 xs; tokens = places xs }

pub length-places : (xs : List Segment) → length (places xs) ≡ width xs
length-places [] = refl
length-places (word t ∷ xs) = ap suc (length-places xs)
length-places (media c ∷ xs) = omega (
  arith,
  length-append (replicate c.n_tokens null_token) (places xs),
  length-replicate c.n_tokens null_token,
  length-places xs,
)

pub places-append : (xs ys : List Segment) → places (xs ++ ys) ≡ places xs ++ places ys
places-append [] ys = refl
places-append (word t ∷ xs) ys = ap (◌∷◌ t) (places-append xs ys)
places-append (media c ∷ xs) ys =
    rw (places-append xs ys) (sym (append_assoc (replicate c.n_tokens null_token) (places xs) _))

pub media_from-append :
    (k : ℕ) (xs ys : List Segment)
    → media_from k (xs ++ ys) ≡ media_from k xs ++ media_from (k + width xs) ys
media_from-append k [] ys = rw add-zero
media_from-append k (word t ∷ xs) ys =
    media_from-append (suc k) xs ys
    ∙ ap (λ (n : ℕ). media_from (suc k) xs ++ media_from n ys) (omega arith)
media_from-append k (media c ∷ xs) ys = ap (◌∷◌ (k, c)) (
    media_from-append (k + c.n_tokens) xs ys
    ∙ ap (λ (n : ℕ). media_from (k + c.n_tokens) xs ++ media_from n ys) (omega arith))

-- The keys of the map lie within the places.
pub media_from_below :
    (k : ℕ) (xs : List Segment)
    → IsValid xs
    → All (λ e. ltb e.0 (k + width xs) ≡ true) (media_from k xs)
media_from_below k [] v = tt
media_from_below k (word t ∷ xs) v =
    let e : suc k + width xs ≡ k + suc (width xs) = omega arith in
    rw e at (media_from_below (suc k) xs v.1)
media_from_below k (media c ∷ xs) v =
    let e : k + c.n_tokens + width xs ≡ k + (c.n_tokens + width xs) = omega arith in
    (ground arith, rw e at (media_from_below (k + c.n_tokens) xs v.1))

pub media_from_above :
    (k n : ℕ) (xs : List Segment) → n ≤ k → All (λ e. ltb e.0 n ≡ false) (media_from k xs)
media_from_above k n [] h = tt
media_from_above k n (word t ∷ xs) h = media_from_above (suc k) n xs (omega arith)
media_from_above k n (media c ∷ xs) h =
    (ground arith, media_from_above (k + c.n_tokens) n xs (omega arith))

pub media_find_below : (j k : ℕ) (xs : List Segment) → j < k → media_find j (media_from k xs) ≡ none
unfolding media_find
media_find_below j k [] h = refl
media_find_below j k (word t ∷ xs) h = media_find_below j (suc k) xs (omega arith)
media_find_below j k (media c ∷ xs) h =
    ground (arith, media_find_below j (k + c.n_tokens) xs (omega arith))

media_find_skip :
    (p k : ℕ) (c : Chunk) (m : List (ℕ × Chunk))
    → k < p
    → media_find p ((k, c) ∷ m) ≡ media_find p m
unfolding media_find
media_find_skip p k c m h = ground arith

-- Behind valid segments the map has what the segments that follow put there.
pub media_find-append :
    (k q p : ℕ) (xs ys : List Segment)
    → IsValid xs
    → q ≡ k + width xs
    → q ≤ p
    → media_find p (media_from k (xs ++ ys)) ≡ media_find p (media_from q ys)
media_find-append k q p [] ys v e h = ap (λ (n : ℕ). media_find p (media_from n ys)) (omega arith)
media_find-append k q p (word t ∷ xs) ys v e h =
    media_find-append (suc k) q p xs ys v.1 (omega arith) h
media_find-append k q p (media c ∷ xs) ys v e h =
    media_find_skip p k c (media_from (k + c.n_tokens) (xs ++ ys)) (omega arith)
    ∙ media_find-append (k + c.n_tokens) q p xs ys v.1 (omega arith) h

-- A chunk that is found starts behind valid segments.
pub find_chunk-build :
    (xs ys : List Segment) (c : Chunk)
    → IsValid xs
    → find_chunk (build (xs ++ media c ∷ ys)) (width xs) ≡ ok c
unfolding find_chunk media_find
find_chunk-build xs ys c v =
    rw
      (
        media_find-append 0 (width xs) (width xs) xs (media c ∷ ys) v (omega arith) (omega arith),
        find_chunk,
      )
      (ground arith)

-- Inside a chunk there is none to be found.
pub find_chunk-inside :
    (xs ys : List Segment) (c : Chunk) (j : ℕ)
    → IsValid xs
    → 0 < j
    → j < c.n_tokens
    → find_chunk (build (xs ++ media c ∷ ys)) (width xs + j) ≡ err runtime_error
unfolding find_chunk
find_chunk-inside xs ys c j v h k = rw (
  media_find-append 0 (width xs) (width xs + j) xs (media c ∷ ys) v (omega arith) (omega arith),
  media_find_skip (width xs + j) (width xs) c (media_from (width xs + c.n_tokens) ys) (omega arith),
  media_find_below (width xs + j) (width xs + c.n_tokens) ys (omega arith),
  find_chunk,
)

pub width-append : (xs ys : List Segment) → width (xs ++ ys) ≡ width xs + width ys
width-append [] ys = omega arith
width-append (word t ∷ xs) ys = omega (arith, width-append xs ys)
width-append (media c ∷ xs) ys = omega (arith, width-append xs ys)

pub length-le-width : (xs : List Segment) → IsValid xs → length xs ≤ width xs
length-le-width [] v = omega arith
length-le-width (word t ∷ xs) v = omega (arith, length-le-width xs v.1)
length-le-width (media c ∷ xs) v = omega (arith, length-le-width xs v.1)

abbrev pub first : Segment → ℤ
first (word t) = t
first (media c) = null_token

pub extent_pos : (s : Segment) → IsSegment s → 0 < width (s ∷ [])
extent_pos (word t) h = omega arith
extent_pos (media c) h = omega arith

places-first :
    (s : Segment) (xs : List Segment) → IsSegment s → get_elem? (places (s ∷ xs)) 0 ≡ some (first s)
places-first (word t) xs h = refl
places-first (media c) xs h = let e : c.n_tokens ≡ suc (c.n_tokens - 1) = omega arith in rw e

-- The place where a segment starts.
pub at_start :
    (ps : List Segment) (s : Segment) (xs : List Segment)
    → IsSegment s
    → get_elem? (places (ps ++ s ∷ xs)) (width ps) ≡ some (first s)
at_start ps s xs h =
    rw (places-append ps (s ∷ xs), ← length-places ps)
      (ap (get_elem? (places ps ++ places (s ∷ xs))) (sym (add-zero (length (places ps))))
        ∙ get_elem?-append (places ps) (places (s ∷ xs)) 0
        ∙ places-first s xs h)

pub width_all : (ps xs : List Segment) → length (places (ps ++ xs)) ≡ width ps + width xs
width_all ps xs = length-places (ps ++ xs) ∙ width-append ps xs
