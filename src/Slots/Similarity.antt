-- ===== src/Slots/Similarity.antt =====
-- core/src/server/server-context.cpp, get_available_slot: the search for the slot whose prompt is similar.
use llama_go.Base.{
  ℕ, suc, ◌+◌, ◌≡◌, refl, sym, ap, subst, ◌∙◌, ◌⊎◌, inl, inr, Bool, true, false, ◌&&◌, Option, some,
  List, [], ◌∷◌, ◌==◌, length, get_elem?, All, Bool-cases, arith, ok,
}
use llama_go.Floats.{Floats}
use llama_go.Tokens.{get_common_prefix}
use llama_go.Tokens.Prefix.{get_common_prefix-IsLongest}
use llama_go.Task.{Task}
use llama_go.Slots.{Slot, Env, is_processing}
use llama_go.Slots.Select.{similarity_of, most_similar}

abbrev pub HoldText : List Slot → Type 0
HoldText = All (λ slot. slot.prompt.tokens.has_mtmd ≡ false)

-- What IEEE 754 says of the order of floating-point numbers, NaN included.
abbrev pub IsStrict : Floats → Type 0
IsStrict fl =
    ((a : fl.Float) → fl.lt a a ≡ false)
    × ((a b c : fl.Float) → fl.lt a b ≡ true → fl.lt b c ≡ true → fl.lt a c ≡ true)

-- The slot is idle, and the similarity of its cached prompt to that of the task is above what the option
-- asks for.
abbrev pub IsSimilar : (env : Env) → Task → env.floats.Float → Slot → Type 0
IsSimilar env task sim slot =
    (lcp : ℕ) × (get_common_prefix slot.prompt.tokens task.tokens ≡ ok lcp)
    × (similarity_of env lcp task ≡ sim)
    × (is_processing slot ≡ false)
    × ((length slot.prompt.tokens.tokens == 0) ≡ false)
    × (env.floats.lt env.similarity sim ≡ true)

-- The slot is busy or has no cached prompt, or the similarity of its prompt is not above both the number and
-- what the option asks for.
abbrev pub IsOther : (env : Env) → Task → env.floats.Float → Slot → Type 0
IsOther env task least slot =
    (is_processing slot ≡ true)
    ⊎ ((length slot.prompt.tokens.tokens == 0) ≡ true)
    ⊎ ((lcp : ℕ) × (get_common_prefix slot.prompt.tokens task.tokens ≡ ok lcp)
        × ((env.floats.lt least (similarity_of env lcp task)
              && env.floats.lt env.similarity (similarity_of env lcp task))
            ≡ false))

-- The number did not fall.
Rises : (fl : Floats) → fl.Float → fl.Float → Type 0
Rises fl a b = (b ≡ a) ⊎ (fl.lt a b ≡ true)

-- What the search for a similar prompt gives: no slot is better, and it is the best so far or a similar
-- slot.
unfoldable pub Searched : (env : Env) → Task → List Slot → ℕ → env.floats.Float → Option ℕ → Type 0
Searched env task slots place least best =
    (o : Option ℕ) × (sim : env.floats.Float) × (most_similar env task slots place least best
      ≡ ok (o, sim))
    × All (IsOther env task sim) slots
    × (((o ≡ best) × (sim ≡ least))
        ⊎ ((env.floats.lt least sim ≡ true)
            × (i : ℕ) × (slot : Slot) × (o ≡ some (place + i))
            × (get_elem? slots i ≡ some slot)
            × IsSimilar env task sim slot))

not_both : (a b c : Bool) → (a && b) ≡ false → (c ≡ true → a ≡ true) → (c && b) ≡ false
not_both a b true e h = ap (λ x. x && b) (sym (h refl)) ∙ e
not_both a b false e h = refl

Rises-IsOther :
    (env : Env) (task : Task) (least sim : env.floats.Float) (slot : Slot)
    → IsStrict env.floats
    → Rises env.floats least sim
    → IsOther env task least slot
    → IsOther env task sim slot
unfolding Rises
Rises-IsOther env task least sim slot strict up (inl p) = inl p
Rises-IsOther env task least sim slot strict up (inr (inl z)) = inr (inl z)
Rises-IsOther env task least sim slot strict (inl same) (inr (inr o)) =
    subst (λ x. IsOther env task x slot) (sym same) (inr (inr o))
Rises-IsOther env task least sim slot strict (inr up) (inr (inr (lcp, e, b))) =
    let fl = env.floats in
    let cur = similarity_of env lcp task in
    inr (
      inr (
        lcp,
        e,
        not_both (fl.lt least cur) (fl.lt env.similarity cur) (fl.lt sim cur) b
            (strict.1 least sim cur up),
      ))

not_below : (fl : Floats) (a b : fl.Float) → IsStrict fl → Rises fl a b → fl.lt b a ≡ false
unfolding Rises
not_below fl a b strict (inl same) = rw same (strict.0 a)
not_below fl a b strict (inr up) = elim (Bool-cases (fl.lt b a)) [
  | inl h ↦ absurd (cc (strict.1 a b a up h, strict.0 a))
  | inr h ↦ h
]

-- The head is passed by.
passed :
    (env : Env) (task : Task) (slot : Slot) (slots : List Slot) (place : ℕ)
    (least : env.floats.Float)
    → (best : Option ℕ) → IsStrict env.floats
    → most_similar env task (slot ∷ slots) place least best
      ≡ most_similar env task slots (suc place) least best
    → IsOther env task least slot
    → Searched env task slots (suc place) least best
    → Searched env task (slot ∷ slots) place least best
unfolding Searched Rises
passed env task slot slots place least best strict e h (o, sim, f, others, inl (b, same)) = (
  o,
  sim,
  e ∙ f,
  (Rises-IsOther env task least sim slot strict (inl same) h, others),
  inl (b, same),
)
passed env task slot slots place least best strict e h
      (o, sim, f, others, inr (up, i, s, at, g, is)) =
    (
      o,
      sim,
      e ∙ f,
      (Rises-IsOther env task least sim slot strict (inr up) h, others),
      inr (up, suc i, s, at ∙ ap some (omega arith), g, is),
    )

-- The head is the best so far.
preferred :
    (env : Env) (task : Task) (slot : Slot) (slots : List Slot) (place : ℕ)
    (least : env.floats.Float)
    → (best : Option ℕ) (lcp : ℕ) → IsStrict env.floats
    → most_similar env task (slot ∷ slots) place least best
      ≡ most_similar env task slots (suc place) (similarity_of env lcp task) (some place)
    → get_common_prefix slot.prompt.tokens task.tokens ≡ ok lcp
    → env.floats.lt least (similarity_of env lcp task) ≡ true
    → IsSimilar env task (similarity_of env lcp task) slot
    → Searched env task slots (suc place) (similarity_of env lcp task) (some place)
    → Searched env task (slot ∷ slots) place least best
unfolding Searched Rises
preferred env task slot slots place least best lcp strict e p up h (o, sim, f, others, found) =
    let fl = env.floats in
    let cur = similarity_of env lcp task in
    let head : Rises fl cur sim → IsOther env task sim slot = λ r.
      inr (inr (lcp, p, ap (λ x. x && fl.lt env.similarity cur) (not_below fl cur sim strict r))) in
    elim found [
      | inl (b, same) ↦ (
        o,
        sim,
        e ∙ f,
        (head (inl same), others),
        inr (
          subst (λ x. fl.lt least x ≡ true) (sym same) up,
          0,
          slot,
          b ∙ ap some (omega arith),
          refl,
          subst (λ x. IsSimilar env task x slot) (sym same) h,
        ),
      )
      | inr (more, i, s, at, g, is) ↦ (
        o,
        sim,
        e ∙ f,
        (head (inr more), others),
        inr (strict.1 least cur sim up more, suc i, s, at ∙ ap some (omega arith), g, is),
      )
    ]

pub most_similar-Searched :
    (env : Env) (task : Task) (slots : List Slot) (place : ℕ) (least : env.floats.Float)
    (best : Option ℕ)
    → IsStrict env.floats
    → HoldText slots
    → Searched env task slots place least best
unfolding most_similar Searched
most_similar-Searched env task [] place least best strict t =
    (best, least, refl, tt, inl (refl, refl))
most_similar-Searched env task (slot ∷ slots) place least best strict t =
    let skip = most_similar-Searched env task slots (suc place) least best strict t.1 in
    let pass = passed env task slot slots place least best strict in
    elim (Bool-cases (is_processing slot)) [
      | inl p ↦ pass (rw (p, most_similar)) (inl p) skip
      | inr p ↦ elim (Bool-cases (length slot.prompt.tokens.tokens == 0)) [
        | inl z ↦ pass (rw (p, z, most_similar)) (inr (inl z)) skip
        | inr z ↦
            let (lcp, e, longest) =
              get_common_prefix-IsLongest slot.prompt.tokens task.tokens t.0 in
            let sim = similarity_of env lcp task in
            elim (Bool-cases (env.floats.lt least sim && env.floats.lt env.similarity sim)) [
              | inr b ↦ pass (rw (p, z, e, b, most_similar)) (inr (inr (lcp, e, b))) skip
              | inl b ↦
                  preferred env task slot slots place least best lcp strict
                    (rw (p, z, e, b, most_similar)) e (ground arith)
                    (lcp, e, refl, p, z, ground arith)
                    (most_similar-Searched env task slots (suc place) sim (some place) strict t.1)
            ]
      ]
    ]
