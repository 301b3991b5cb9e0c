-- ===== src/Tokens/Prefix.antt =====
-- core/src/server/server-common.cpp, server_tokens::get_common_prefix: what of a prompt can be
-- reused.
use mathlib.Core.Bool.{false≢true}
use mathlib.Core.Path.{ap₂}
use llama_go.Base.{
  ℕ, zero, suc, ◌+◌, ◌<◌, ◌≤◌, ◌≡◌, refl, ap, sym, ◌∙◌, inl, inr, Bool, true, false, ◌&&◌, some,
  List, [], ◌∷◌, ◌++◌, append_assoc, ltb, ◌==◌, if◌then◌else◌, lt→ltb, le→ltb, Bool-cases, min,
  length, get_elem?, take, All-append, arith, ℤ, ◌==ℤ◌, ==ℤ_iff, ==ℤ_ne, ==ℤ_refl, ok,
}
use llama_go.Tokens.{
  Chunk, Tokens, null_token, find_chunk, compare_at, compare_places, both_null, same, differ,
  media_prefix, text_prefix, get_common_prefix,
}
use llama_go.Tokens.Segments.{
  Segment, word, media, IsSegment, IsValid, places, width, build, length-places, find_chunk-build,
  width-append, length-le-width, first, extent_pos, at_start, width_all,
}

-- The longest common prefix has n tokens.
abbrev pub IsLongest : List ℤ → List ℤ → ℕ → Type 0
IsLongest xs ys n =
    (n ≤ length xs)
    × (n ≤ length ys)
    × (take n xs ≡ take n ys)
    × ((m : ℕ) → m ≤ length xs → m ≤ length ys → take m xs ≡ take m ys → m ≤ n)

text_prefix_below :
    (xs ys : List ℤ) (m : ℕ)
    → m ≤ length xs
    → m ≤ length ys
    → take m xs ≡ take m ys
    → m ≤ text_prefix xs ys
unfolding text_prefix
text_prefix_below xs ys zero h k e = omega arith
text_prefix_below [] ys (suc m) h k e = h
text_prefix_below (x ∷ xs) [] (suc m) h k e = k
text_prefix_below (x ∷ xs) (y ∷ ys) (suc m) h k e =
    rw ((==ℤ_iff x y).1 (cc e))
      (omega (arith, text_prefix_below xs ys m (omega arith) (omega arith) (cc e)))

pub text_prefix-le_left : (xs ys : List ℤ) → text_prefix xs ys ≤ length xs
unfolding text_prefix
text_prefix-le_left [] ys = omega arith
text_prefix-le_left (x ∷ xs) [] = omega arith
text_prefix-le_left (x ∷ xs) (y ∷ ys) = ground (arith, text_prefix-le_left xs ys)

pub text_prefix-le_right : (xs ys : List ℤ) → text_prefix xs ys ≤ length ys
unfolding text_prefix
text_prefix-le_right [] ys = omega arith
text_prefix-le_right (x ∷ xs) [] = omega arith
text_prefix-le_right (x ∷ xs) (y ∷ ys) = ground (arith, text_prefix-le_right xs ys)

pub take-text_prefix : (xs ys : List ℤ) → take (text_prefix xs ys) xs ≡ take (text_prefix xs ys) ys
unfolding text_prefix
take-text_prefix [] ys = refl
take-text_prefix (x ∷ xs) [] = refl
take-text_prefix (x ∷ xs) (y ∷ ys) = ground (arith, take-text_prefix xs ys, ==ℤ_iff x y)

text_prefix-IsLongest : (xs ys : List ℤ) → IsLongest xs ys (text_prefix xs ys)
text_prefix-IsLongest xs ys = (
  text_prefix-le_left xs ys,
  text_prefix-le_right xs ys,
  take-text_prefix xs ys,
  text_prefix_below xs ys,
)

-- With no media the common prefix that is reused is the longest one: the two token lists agree on it,
-- it is within both, and every other length at which they agree is at most as long.
pub get_common_prefix-IsLongest :
    (a b : Tokens)
    → a.has_mtmd ≡ false
    → (n : ℕ) × (get_common_prefix a b ≡ ok n) × IsLongest a.tokens b.tokens n
unfolding get_common_prefix
get_common_prefix-IsLongest a b h = (
  text_prefix a.tokens b.tokens,
  rw (h, get_common_prefix),
  text_prefix-IsLongest a.tokens b.tokens,
)

-- Segments that get_common_prefix takes for equal.
abbrev pub same_segment : Segment → Segment → Bool
same_segment (word s) (word t) = s ==ℤ t
same_segment (word s) (media d) = false
same_segment (media c) (word t) = false
same_segment (media c) (media d) = c.id == d.id && c.n_tokens == d.n_tokens

-- The segments of the first list that the second list begins with too.
abbrev pub common : List Segment → List Segment → List Segment
common [] ys = []
common (x ∷ xs) [] = []
common (x ∷ xs) (y ∷ ys) = if same_segment x y then x ∷ common xs ys else []

compare_lem :
    (ps qs : List Segment) (s t : Segment) (xs ys : List Segment) (i : ℕ)
    → IsSegment s
    → IsSegment t
    → i ≡ width ps
    → i ≡ width qs
    → compare_at (build (ps ++ s ∷ xs)) (build (qs ++ t ∷ ys)) i
      ≡ compare_places (first s) (first t)
unfolding compare_at
compare_lem ps qs s t xs ys i h k e f =
    let a : get_elem? (places (ps ++ s ∷ xs)) i ≡ some (first s) = rw e (at_start ps s xs h) in
    let b : get_elem? (places (qs ++ t ∷ ys)) i ≡ some (first t) = rw f (at_start qs t ys k) in
    rw (a, b, compare_at)

-- One round of the loop, by what it finds at the place.
module _ (fuel : ℕ) (a b : Tokens) (i : ℕ) where
  round_end :
      ltb i (min (length a.tokens) (length b.tokens)) ≡ false
      → media_prefix (suc fuel) a b i ≡ ok (min (length a.tokens) (length b.tokens))
  unfolding media_prefix
  round_end h = rw h

  module _ (inside : ltb i (min (length a.tokens) (length b.tokens)) ≡ true) where
    round_same :
        compare_at a b i ≡ same → media_prefix (suc fuel) a b i ≡ media_prefix fuel a b (suc i)
    unfolding media_prefix
    round_same h = rw (inside, h)

    round_differ : compare_at a b i ≡ differ → media_prefix (suc fuel) a b i ≡ ok i
    unfolding media_prefix
    round_differ h = rw (inside, h)

    round_media :
        (c d : Chunk)
        → compare_at a b i ≡ both_null
        → find_chunk a i ≡ ok c
        → find_chunk b i ≡ ok d
        → 0 < c.n_tokens
        → media_prefix (suc fuel) a b i ≡ (
            if c.id == d.id && c.n_tokens == d.n_tokens
            then media_prefix fuel a b (i + c.n_tokens)
            else ok i)
    unfolding media_prefix
    round_media c d h e f k = rw (inside, h, e, f, lt→ltb 0 c.n_tokens k)

first_word :
    (s : ℤ) (y : Segment)
    → IsSegment (word s)
    → compare_places s (first y) ≡ (if s ==ℤ first y then same else differ)
first_word s y h = rw h

media_word : (t : ℤ) → IsSegment (word t) → compare_places null_token t ≡ differ
unfolding ◌==ℤ◌
media_word t h =
    rw (h, ==ℤ_ne null_token t (λ e. false≢true (sym h ∙ (==ℤ_iff t null_token).1 (sym e))))

within :
    (ps qs : List Segment) (x y : Segment) (xs ys : List Segment) (i : ℕ)
    → IsSegment x
    → IsSegment y
    → i ≡ width ps
    → i ≡ width qs
    → ltb i (min (length (places (ps ++ x ∷ xs))) (length (places (qs ++ y ∷ ys)))) ≡ true
within ps qs x y xs ys i h k e f = lt→ltb _ _ (
    omega (
      arith,
      width_all ps (x ∷ xs),
      width_all qs (y ∷ ys),
      width-append (x ∷ []) xs,
      width-append (y ∷ []) ys,
      extent_pos x h,
      extent_pos y k,
    ))

module _ (fuel : ℕ) (ps qs xs ys : List Segment) (i : ℕ) where
  regroup :
      (k n : ℕ) (x y : Segment)
      → media_prefix fuel (build ((ps ++ x ∷ []) ++ xs)) (build ((qs ++ y ∷ []) ++ ys)) k ≡ ok n
      → media_prefix fuel (build (ps ++ x ∷ xs)) (build (qs ++ y ∷ ys)) k ≡ ok n
  regroup k n x y h =
      sym (
        ap₂ (λ p q. media_prefix fuel (build p) (build q) k) (append_assoc ps (x ∷ []) xs)
          (append_assoc qs (y ∷ []) ys))
      ∙ h

  words :
      (s t : ℤ)
      → IsValid (word s ∷ xs)
      → IsValid (word t ∷ ys)
      → i ≡ width ps
      → i ≡ width qs
      → media_prefix fuel
          (build ((ps ++ word s ∷ []) ++ xs))
          (build ((qs ++ word t ∷ []) ++ ys))
          (suc i)
        ≡ ok (suc i + width (common xs ys))
      → media_prefix (suc fuel) (build (ps ++ word s ∷ xs)) (build (qs ++ word t ∷ ys)) i
        ≡ ok (i + width (common (word s ∷ xs) (word t ∷ ys)))
  words s t vx vy e f ih =
      let inside = within ps qs (word s) (word t) xs ys i vx.0 vy.0 e f in
      let c =
        compare_lem ps qs (word s) (word t) xs ys i vx.0 vy.0 e f ∙ first_word s (word t) vx.0 in
      elim (Bool-cases (s ==ℤ t)) [
        | inl q ↦
            round_same fuel _ _ i inside (c ∙ rw q)
            ∙ regroup (suc i) _ (word s) (word t) ih
            ∙ rw q (ap ok (omega arith))
        | inr q ↦ round_differ fuel _ _ i inside (c ∙ rw q) ∙ rw q (ap ok (omega arith))
      ]

  chunks :
      (c d : Chunk)
      → IsValid ps
      → IsValid qs
      → IsValid (media c ∷ xs)
      → IsValid (media d ∷ ys)
      → i ≡ width ps
      → i ≡ width qs
      → (c.n_tokens ≡ d.n_tokens
          → media_prefix fuel
              (build ((ps ++ media c ∷ []) ++ xs))
              (build ((qs ++ media d ∷ []) ++ ys))
              (i + c.n_tokens)
            ≡ ok (i + c.n_tokens + width (common xs ys)))
      → media_prefix (suc fuel) (build (ps ++ media c ∷ xs)) (build (qs ++ media d ∷ ys)) i
        ≡ ok (i + width (common (media c ∷ xs) (media d ∷ ys)))
  chunks c d vp vq vx vy e f ih =
      round_media fuel _ _ i (within ps qs (media c) (media d) xs ys i vx.0 vy.0 e f) c d
        (compare_lem ps qs (media c) (media d) xs ys i vx.0 vy.0 e f ∙ rw (==ℤ_refl null_token))
        (rw e (find_chunk-build ps xs c vp)) (rw f (find_chunk-build qs ys d vq)) vx.0
      ∙ (elim (Bool-cases (c.id == d.id && c.n_tokens == d.n_tokens)) [
        | inl q ↦ rw q (
            regroup (i + c.n_tokens) _ (media c) (media d) (ih (ground arith))
            ∙ ap ok (omega arith))
        | inr q ↦ rw q (ap ok (omega arith))
      ])

media_prefix-build :
    (fuel : ℕ) (ps qs xs ys : List Segment) (i : ℕ)
    → IsValid ps
    → IsValid qs
    → IsValid xs
    → IsValid ys
    → i ≡ width ps
    → i ≡ width qs
    → length xs < fuel
    → media_prefix fuel (build (ps ++ xs)) (build (qs ++ ys)) i ≡ ok (i + width (common xs ys))
media_prefix-build zero ps qs xs ys i vp vq vx vy e f h = elim h [ ]
media_prefix-build (suc fuel) ps qs [] ys i vp vq vx vy e f h =
    let a = width_all ps [] in
    let b = width_all qs ys in
    round_end fuel (build (ps ++ [])) (build (qs ++ ys)) i (le→ltb _ _ (omega (arith, a, b)))
    ∙ ap ok (omega (arith, a, b))
media_prefix-build (suc fuel) ps qs (x ∷ xs) [] i vp vq vx vy e f h =
    let a = width_all ps (x ∷ xs) in
    let b = width_all qs [] in
    round_end fuel (build (ps ++ x ∷ xs)) (build (qs ++ [])) i (le→ltb _ _ (omega (arith, a, b)))
    ∙ ap ok (omega (arith, a, b))
media_prefix-build (suc fuel) ps qs (word s ∷ xs) (word t ∷ ys) i vp vq vx vy e f h =
    words fuel ps qs xs ys i s t vx vy e f (
      media_prefix-build fuel (ps ++ word s ∷ []) (qs ++ word t ∷ []) xs ys (suc i)
        (All-append IsSegment ps _ vp (vx.0, tt)) (All-append IsSegment qs _ vq (vy.0, tt)) vx.1
        vy.1 (omega (arith, e, width-append ps (word s ∷ [])))
        (omega (arith, f, width-append qs (word t ∷ []))) (omega arith))
media_prefix-build (suc fuel) ps qs (word s ∷ xs) (media d ∷ ys) i vp vq vx vy e f h =
    round_differ fuel _ _ i (within ps qs (word s) (media d) xs ys i vx.0 vy.0 e f) (
      compare_lem ps qs (word s) (media d) xs ys i vx.0 vy.0 e f
      ∙ first_word s (media d) vx.0
      ∙ rw vx.0)
    ∙ ap ok (omega arith)
media_prefix-build (suc fuel) ps qs (media c ∷ xs) (word t ∷ ys) i vp vq vx vy e f h =
    round_differ fuel _ _ i (within ps qs (media c) (word t) xs ys i vx.0 vy.0 e f)
      (compare_lem ps qs (media c) (word t) xs ys i vx.0 vy.0 e f ∙ media_word t vy.0)
    ∙ ap ok (omega arith)
media_prefix-build (suc fuel) ps qs (media c ∷ xs) (media d ∷ ys) i vp vq vx vy e f h =
    chunks fuel ps qs xs ys i c d vp vq vx vy e f λ same_n.
      media_prefix-build fuel (ps ++ media c ∷ []) (qs ++ media d ∷ []) xs ys (i + c.n_tokens)
        (All-append IsSegment ps _ vp (vx.0, tt)) (All-append IsSegment qs _ vq (vy.0, tt)) vx.1
        vy.1 (omega (arith, e, width-append ps (media c ∷ [])))
        (omega (arith, f, same_n, width-append qs (media d ∷ []))) (omega arith)

-- With media the common prefix that is reused is that of the meanings of the two token lists: the
-- places of the segments with which both begin, where a media chunk counts whole or not at all.
pub get_common_prefix-build :
    (xs ys : List Segment)
    → IsValid xs
    → IsValid ys
    → get_common_prefix (build xs) (build ys) ≡ ok (width (common xs ys))
unfolding get_common_prefix
get_common_prefix-build xs ys v w =
    media_prefix-build (suc (length (places xs))) [] [] xs ys 0 tt tt v w refl refl
      (omega (arith, length-places xs, length-le-width xs v))
    ∙ ap ok (omega arith)
