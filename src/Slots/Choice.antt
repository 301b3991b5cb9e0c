-- ===== src/Slots/Choice.antt =====
-- core/src/server/server-context.cpp, get_slot_by_id, get_available_slot and get_free_slots: which slot
-- is chosen.
use native.Mathlib.Nat.{mod-lt}
use llama_go.Base.{
  ℕ, suc, ◌+◌, ◌-◌, ◌^◌, ◌<◌, ◌≤◌, ◌≡◌, refl, sym, subst, ◌⊎◌, inl, inr, true, false, none, some,
  List, [], ◌∷◌, ◌==◌, length, get_elem?, All, Bool-cases, arith, ℤ, pos, negsuc,
}
use llama_go.Slots.{Slot, is_processing}
use llama_go.Slots.Select.{wrap_id, find_slot, get_slot_by_id, le_time, least_recent}

-- The ids of the slots are their places, as they are when the slots are made.
abbrev pub IsNumberedFrom : ℕ → List Slot → Type 0
IsNumberedFrom k [] = Unit {0}
IsNumberedFrom k (slot ∷ slots) = (slot.id ≡ k) × IsNumberedFrom (suc k) slots

wrap_id_lt : (i : ℤ) (n : ℕ) → 0 < n → wrap_id i n < n
unfolding wrap_id
wrap_id_lt (pos a) n h = mod-lt a h
wrap_id_lt (negsuc a) n h = mod-lt (2 ^ 64 - (a + 1)) h

find_slot-numbered :
    (id : ℕ) (slots : List Slot) (k : ℕ)
    → IsNumberedFrom k slots
    → k ≤ id
    → id < k + length slots
    → find_slot id slots k ≡ some id
unfolding find_slot
find_slot-numbered id [] k v h l = absurd (omega arith)
find_slot-numbered id (slot ∷ slots) k v h l = elim (Bool-cases (slot.id == id)) [
  | inl e ↦ rw (e, find_slot) (ground (arith, v.0))
  | inr e ↦
      rw (e, find_slot)
        (find_slot-numbered id slots (suc k) v.1 (ground (arith, v.0)) (omega arith))
]

-- Any number names a slot, if there are slots: out of range, it wraps around.
pub get_slot_by_id-total :
    (slots : List Slot) (id_slot : ℤ)
    → IsNumberedFrom 0 slots
    → 0 < length slots
    → (get_slot_by_id slots id_slot ≡ some (wrap_id id_slot (length slots)))
      × (wrap_id id_slot (length slots) < length slots)
unfolding get_slot_by_id
get_slot_by_id-total slots id_slot v h = (
  find_slot-numbered (wrap_id id_slot (length slots)) slots 0 v (omega arith)
      (omega (arith, wrap_id_lt id_slot (length slots) h)),
  wrap_id_lt id_slot (length slots) h,
)

-- A list of slots has an idle one.
abbrev pub HasIdle : List Slot → Type 0
HasIdle [] = ⊥
HasIdle (slot ∷ slots) = (is_processing slot ≡ false) ⊎ HasIdle slots

-- Every idle slot was last used at the time or later.
abbrev pub IsOldest : ℤ → List Slot → Type 0
IsOldest t slots =
    All (λ slot. is_processing slot ≡ false → le_time t slot.t_last_used ≡ true) slots

le_time_refl : (a : ℤ) → le_time a a ≡ true
unfolding le_time
le_time_refl (pos a) = ground arith
le_time_refl (negsuc a) = ground arith

le_time_trans : (a b c : ℤ) → le_time a b ≡ true → le_time b c ≡ true → le_time a c ≡ true
unfolding le_time
le_time_trans (pos a) (pos b) (pos c) h k = ground arith
le_time_trans (pos a) (pos b) (negsuc c) h k = ground arith
le_time_trans (pos a) (negsuc b) c h k = ground arith
le_time_trans (negsuc a) (pos b) (pos c) h k = refl
le_time_trans (negsuc a) (pos b) (negsuc c) h k = ground arith
le_time_trans (negsuc a) (negsuc b) (pos c) h k = refl
le_time_trans (negsuc a) (negsuc b) (negsuc c) h k = ground arith

le_time_total : (a b : ℤ) → le_time a b ≡ false → le_time b a ≡ true
unfolding le_time
le_time_total (pos a) (pos b) h = ground arith
le_time_total (pos a) (negsuc b) h = refl
le_time_total (negsuc a) (pos b) h = ground arith
le_time_total (negsuc a) (negsuc b) h = ground arith

-- What the search gives if it has a best slot so far, last used at t.
record Better (slots : List Slot) (place : ℕ) (t : ℤ) (best r : ℕ) : Type 0 where
  time : ℤ
  where_it_is :
      ((r ≡ best) × (time ≡ t))
      ⊎ ((i : ℕ) × (slot : Slot) × (r ≡ place + i)
          × (get_elem? slots i ≡ some slot)
          × (is_processing slot ≡ false)
          × (slot.t_last_used ≡ time))
  not_later : le_time time t ≡ true
  oldest : IsOldest time slots

Found : List Slot → ℕ → ℤ → ℕ → Type 0
Found slots place time r =
    (i : ℕ) × (slot : Slot) × (r ≡ place + i)
    × (get_elem? slots i ≡ some slot)
    × (is_processing slot ≡ false)
    × (slot.t_last_used ≡ time)

Found-tail :
    (slot : Slot) (slots : List Slot) (place : ℕ) (time : ℤ) (r : ℕ)
    → Found slots (suc place) time r
    → Found (slot ∷ slots) place time r
unfolding Found
Found-tail slot slots place time r (i, found, e, g, f, t) =
    (suc i, found, omega (arith, e), g, f, t)

-- The head is passed by: it is busy, or was used later than the best so far.
pass :
    (slot : Slot) (slots : List Slot) (place : ℕ) (t : ℤ) (best r : ℕ)
    → (is_processing slot ≡ false → le_time t slot.t_last_used ≡ true)
    → Better slots (suc place) t best r
    → Better (slot ∷ slots) place t best r
unfolding Found
pass slot slots place t best r h b = record {
  time = b.time;
  where_it_is = elim b.where_it_is [
    | inl e ↦ inl e
    | inr f ↦ inr (Found-tail slot slots place b.time r f)
  ];
  not_later = b.not_later;
  oldest = (λ k. le_time_trans b.time t slot.t_last_used b.not_later (h k), b.oldest);
}

-- The head is taken as the best so far.
take_head :
    (slot : Slot) (slots : List Slot) (place : ℕ) (t : ℤ) (best r : ℕ)
    → is_processing slot ≡ false
    → le_time slot.t_last_used t ≡ true
    → Better slots (suc place) slot.t_last_used place r
    → Better (slot ∷ slots) place t best r
unfolding Found
take_head slot slots place t best r h l b = record {
  time = b.time;
  where_it_is = elim b.where_it_is [
    | inl e ↦ inr (0, slot, omega (arith, e.0), refl, h, sym e.1)
    | inr f ↦ inr (Found-tail slot slots place b.time r f)
  ];
  not_later = le_time_trans b.time slot.t_last_used t b.not_later l;
  oldest = (λ k. b.not_later, b.oldest);
}

least_recent-Better :
    (slots : List Slot) (place : ℕ) (t : ℤ) (best : ℕ)
    → (r : ℕ) × (least_recent slots place t (some best) ≡ some r) × Better slots place t best r
unfolding least_recent
least_recent-Better [] place t best = (
  best,
  refl,
  record { time = t; where_it_is = inl (refl, refl); not_later = le_time_refl t; oldest = tt },
)
least_recent-Better (slot ∷ slots) place t best = elim (Bool-cases (is_processing slot)) [
  | inl k ↦
      let (r, e, b) = least_recent-Better slots (suc place) t best in
      (r, rw (k, least_recent) e, pass slot slots place t best r (λ f. ground arith) b)
  | inr k ↦ elim (Bool-cases (le_time slot.t_last_used t)) [
    | inl l ↦
        let (r, e, b) = least_recent-Better slots (suc place) slot.t_last_used place in
        (r, rw (k, l, least_recent) e, take_head slot slots place t best r k l b)
    | inr l ↦
        let (r, e, b) = least_recent-Better slots (suc place) t best in
        (
          r,
          rw (k, l, least_recent) e,
          pass slot slots place t best r (λ f. le_time_total slot.t_last_used t l) b,
        )
  ]
]

-- The slot at the place is idle, and no idle slot was last used before it.
pub record IsLeastRecent (slots : List Slot) (place r : ℕ) : Type 0 where
  pub offset : ℕ
  pub slot : Slot
  pub at : r ≡ place + offset
  pub there : get_elem? slots offset ≡ some slot
  pub free : is_processing slot ≡ false
  pub oldest : IsOldest slot.t_last_used slots

least_recent-from :
    (slots : List Slot) (place : ℕ)
    → HasIdle slots
    → (r : ℕ) × (least_recent slots place (negsuc 0) none ≡ some r) × IsLeastRecent slots place r
unfolding least_recent Found
least_recent-from [] place h = elim h [ ]
least_recent-from (s ∷ slots) place h = elim (Bool-cases (is_processing s)) [
  | inl k ↦
      let (r, e, b) =
        least_recent-from slots (suc place)
          (elim h [ inl f ↦ absurd (ground arith) | inr f ↦ f ]) in
      (
        r,
        rw (k, least_recent) e,
        record {
          offset = suc b.offset;
          slot = b.slot;
          at = omega (arith, b.at);
          there = b.there;
          free = b.free;
          oldest = (λ f. ground arith, b.oldest);
        },
      )
  | inr k ↦
      let (r, e, b) = least_recent-Better slots (suc place) s.t_last_used place in
      let c = take_head s slots place s.t_last_used place r k (le_time_refl s.t_last_used) b in
      (r, rw (k, least_recent) e, settle s slots place r k c)
]
  where
    settle :
        (s : Slot) (slots : List Slot) (place r : ℕ)
        → is_processing s ≡ false
        → Better (s ∷ slots) place s.t_last_used place r
        → IsLeastRecent (s ∷ slots) place r
    settle s slots place r k c = elim c.where_it_is [
      | inl (e, t) ↦ record {
        offset = 0;
        slot = s;
        at = omega (arith, e);
        there = refl;
        free = k;
        oldest = subst (λ z. IsOldest z (s ∷ slots)) t c.oldest;
      }
      | inr (i, found, e, g, f, t) ↦ record {
        offset = i;
        slot = found;
        at = e;
        there = g;
        free = f;
        oldest = subst (λ z. IsOldest z (s ∷ slots)) (sym t) c.oldest;
      }
    ]

-- The search finds the idle slot that was used the longest ago, if any slot is idle.
pub least_recent-IsLeastRecent :
    (slots : List Slot)
    → HasIdle slots
    → (r : ℕ) × (least_recent slots 0 (negsuc 0) none ≡ some r) × IsLeastRecent slots 0 r
least_recent-IsLeastRecent slots h = least_recent-from slots 0 h
