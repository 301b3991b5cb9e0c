-- ===== src/Generate/Utf8.antt =====
-- core/src/server/server-common.cpp, validate_utf8: where a text is cut.
use llama_go.Base.{
  ℕ, zero, suc, ◌+◌, ◌-◌, ◌<◌, ◌≤◌, ◌≡◌, ◌⊎◌, inl, inr, some, List, ltb, ltb→lt, lt→ltb, true, min,
  length, get_elem?, get_elem?-within, ap, sym, ◌∙◌, none, Bool-cases, Option-cases, arith,
}
use llama_go.Generate.{bytes_needed, cut_off, validate_utf8}

-- A byte that starts a character of two, three or four bytes in UTF-8, which has more bytes than are
-- there.
abbrev pub NeedsMore : ℕ → ℕ → Type 0
NeedsMore byte n =
    ((192 ≤ byte) × (byte < 224) × (n < 2))
    ⊎ ((224 ≤ byte) × (byte < 240) × (n < 3))
    ⊎ ((240 ≤ byte) × (byte < 248) × (n < 4))

NeedsMore-of : (byte n : ℕ) → 0 < n → n < bytes_needed byte → NeedsMore byte n
unfolding bytes_needed
NeedsMore-of byte n h k = ground arith

NeedsMore-back : (byte n : ℕ) → NeedsMore byte n → n < bytes_needed byte
unfolding bytes_needed
NeedsMore-back byte n h = ground arith

-- The text has a character of several bytes that starts at the place, and it ends before the character
-- does.
pub record IsCutAt (text : List ℕ) (place : ℕ) : Type 0 where
  pub missing : ℕ
  pub byte : ℕ
  pub at : place + missing ≡ length text
  pub some_there : 0 < missing
  pub there : get_elem? text place ≡ some byte
  pub short : NeedsMore byte missing

cut_off-IsCutAt :
    (text : List ℕ) (i k n : ℕ)
    → 0 < i
    → i + k ≤ suc (length text)
    → cut_off text i k ≡ some n
    → IsCutAt text n
unfolding cut_off
cut_off-IsCutAt text i zero n h l e = cc
cut_off-IsCutAt text i (suc k) n h l e = elim (Option-cases (get_elem? text (length text - i))) [
  | inl g ↦ absurd (ground arith)
  | inr (c, g) ↦ elim (Bool-cases (ltb i (bytes_needed c))) [
    | inl b ↦
        found text i n c h (omega arith) g (ltb→lt i (bytes_needed c) b) (rw (g, b, cut_off) at e)
    | inr b ↦ cut_off-IsCutAt text (suc i) k n (omega arith) (omega arith) (rw (g, b, cut_off) at e)
  ]
]
  where
    found :
        (text : List ℕ) (i n c : ℕ)
        → 0 < i
        → i ≤ length text
        → get_elem? text (length text - i) ≡ some c
        → i < bytes_needed c
        → some (length text - i) ≡ some n
        → IsCutAt text n
    found text i n c h l g b e =
        let n_eq : n ≡ length text - i = ground arith in
        record {
          missing = i;
          byte = c;
          at = omega (arith, n_eq);
          some_there = h;
          there = rw n_eq g;
          short = NeedsMore-of c i h b;
        }

-- The bytes that need more at the place that is looked at.
cut_here :
    (text : List ℕ) (i c p : ℕ) (cut : IsCutAt text p)
    → cut.missing ≡ i
    → get_elem? text (length text - i) ≡ some c
    → ltb i (bytes_needed c) ≡ true
cut_here text i c p cut e g =
    let place : length text - i ≡ p = omega (arith, cut.at) in
    let same : some cut.byte ≡ some c = sym cut.there ∙ ap (get_elem? text) (sym place) ∙ g in
    let byte : cut.byte ≡ c = ground arith in
    lt→ltb i (bytes_needed c) (rw (← byte, ← e) (NeedsMore-back cut.byte cut.missing cut.short))

-- The search stops at a character that is cut, or behind it.
cut_off-finds :
    (text : List ℕ) (i k p : ℕ) (cut : IsCutAt text p)
    → 0 < i
    → i ≤ cut.missing
    → cut.missing < i + k
    → (n : ℕ) × (cut_off text i k ≡ some n) × (p ≤ n)
unfolding cut_off
cut_off-finds text i zero p cut z h l = absurd (omega arith)
cut_off-finds text i (suc k) p cut z h l =
    let at = cut.at in
    let (c1, inside) = get_elem?-within text (length text - i) (omega (arith, at)) in
    elim (Option-cases (get_elem? text (length text - i))) [
      | inl g ↦ absurd (ground arith)
      | inr (c, g) ↦ elim (Bool-cases (ltb i (bytes_needed c))) [
        | inl b ↦ (length text - i, rw (g, b, cut_off), omega (arith, at))
        | inr b ↦ elim (Bool-cases (ltb i cut.missing)) [
          | inl m ↦
              rw (g, b, cut_off)
                (cut_off-finds text (suc i) k p cut (omega arith) (ltb→lt i cut.missing m)
                  (omega arith))
          | inr m ↦ let here = cut_here text i c p cut (ground arith) g in absurd (ground arith)
        ]
      ]
    ]

missing_few : (text : List ℕ) (p : ℕ) (cut : IsCutAt text p) → cut.missing < 1 + min 4 (length text)
missing_few text p cut = ground (arith, cut.at, cut.short)

validate_utf8-reaches : (text : List ℕ) (p : ℕ) → IsCutAt text p → p ≤ validate_utf8 text
unfolding validate_utf8
validate_utf8-reaches text p cut =
    let (n, e, le) =
      cut_off-finds text 1 (min 4 (length text)) p cut (omega arith) cut.some_there
        (missing_few text p cut) in
    rw (e, validate_utf8) le

validate_utf8-whole :
    (text : List ℕ) → cut_off text 1 (min 4 (length text)) ≡ none → ¬ ((p : ℕ) × IsCutAt text p)
validate_utf8-whole text e (p, cut) =
    let (n, f, le) =
      cut_off-finds text 1 (min 4 (length text)) p cut (omega arith) cut.some_there
        (missing_few text p cut) in
    absurd (ground arith)

-- validate_utf8 gives the length of the text if no character of several bytes starts in it of which it has
-- a part only, and else the last place where such a character starts.
pub validate_utf8-cases :
    (text : List ℕ)
    → ((validate_utf8 text ≡ length text) × ¬ ((p : ℕ) × IsCutAt text p))
      ⊎ (IsCutAt text (validate_utf8 text)
          × ¬ ((p : ℕ) × (validate_utf8 text < p) × IsCutAt text p))
unfolding validate_utf8
validate_utf8-cases text = elim (Option-cases (cut_off text 1 (min 4 (length text)))) [
  | inl n ↦ inl (rw (n, validate_utf8), validate_utf8-whole text n)
  | inr (p, n) ↦ inr (
    rw (n, validate_utf8)
        (cut_off-IsCutAt text 1 (min 4 (length text)) p (omega arith) (omega arith) n),
    λ (q, lt, cut). omega (arith, validate_utf8-reaches text q cut),
  )
]
