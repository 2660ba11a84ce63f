-- ===== src/Bookings/Calendar.antt =====
-- No coach is booked twice at a time: the invariant of the table of bookings, and what the single
-- writes do to it.
use betti_coaching_calendar.Prelude.{
  ℕ, ◌≡◌, ◌≢◌, refl, sym, Bool, ◌⊎◌, true, false, ◌&&◌, ◌||◌, ◌==◌, ltb, none, some, List, [], ◌∷◌,
  ◌++◌, any, any-eq-false, update_where, All, All-update_where, All-In, All-of_In, ◌∙◌, All-append,
  All-map, In, here, there, Bool-cases, inl, inr, arith,
}
use betti_coaching_calendar.Schema.{Booking, is_confirmed}
use betti_coaching_calendar.Bookings.Slot.{overlaps, set_times}

-- both are active, of one coach, and share an instant
unfoldable pub clash : Booking → Booking → Bool
clash b c =
    b.coach_id == c.coach_id
    && is_confirmed b.status
    && is_confirmed c.status
    && ltb b.start_at c.end_at
    && ltb c.start_at b.end_at

-- Two rows have their own identifiers and tokens, and are not active at one time for one coach.
pub record Compatible (b c : Booking) : Type 0 where
  pub ids : b.id ≢ c.id
  pub tokens : b.manage_token ≢ c.manage_token
  pub apart : clash b c ≡ false

-- Any two rows of the table are compatible.
abbrev pub IsCalendar : List Booking → Type 0
IsCalendar [] = Unit
IsCalendar (b ∷ bs) = All (Compatible b) bs × IsCalendar bs

pub Compatible-sym : {b c : Booking} → Compatible b c → Compatible c b
unfolding clash
Compatible-sym h = ground arith

pub append-IsCalendar :
    (bs : List Booking) (row : Booking)
    → IsCalendar bs
    → All (λ c. Compatible c row) bs
    → IsCalendar (bs ++ row ∷ [])
append-IsCalendar [] row h k = (tt, tt)
append-IsCalendar (b ∷ bs) row (h, r) (k, ks) =
    (All-append (Compatible b) bs (row ∷ []) h (k, tt), append-IsCalendar bs row r ks)

-- A change of the row `i`, which is one of the `Own` rows, keeps it compatible with the row `c`.
abbrev pub IsSafe : (Booking → Type 0) → ℕ → (Booking → Booking) → Booking → Type 0
IsSafe Own i change c = (b : Booking) → b.id ≡ i → Own b → Compatible b c → Compatible (change b) c

module _ (Own : Booking → Type 0) (i : ℕ) (change : Booking → Booking)
    (id : (b : Booking) → (change b).id ≡ b.id) where
  -- the changed row at the head, against the rows behind it
  moved_head :
      (b : Booking) (bs : List Booking)
      → (b.id == i) ≡ true
      → Own b
      → All (IsSafe Own i change) bs
      → All (Compatible b) bs
      → All (Compatible (change b)) (update_where (λ c. c.id == i) change bs)
  moved_head b bs e own ss h =
      All-update_where (Compatible (change b)) _ change bs
        (λ c p k. absurd (k.ids (id b ∙ (ground arith))))
        (All-map {P = Compatible b} (Compatible (change b)) bs
          (λ c m k. All-In (IsSafe Own i change) c bs ss m b (ground arith) own k) h)

  -- an unchanged row at the head
  kept_head :
      (b : Booking) (bs : List Booking)
      → IsSafe Own i change b
      → All (λ c. c.id ≡ i → Own c) bs
      → All (Compatible b) bs
      → All (Compatible b) (update_where (λ c. c.id == i) change bs)
  unfolding update_where
  kept_head b [] s own h = tt
  kept_head b (c ∷ bs) s (own, os) (k, h) = elim (Bool-cases (c.id == i)) [
    | inl e ↦ rw e (
      Compatible-sym (s c (ground arith) (own (ground arith)) (Compatible-sym k)),
      kept_head b bs s os h,
    )
    | inr e ↦ rw e (k, kept_head b bs s os h)
  ]

  pub update-IsCalendar :
      (bs : List Booking)
      → All (IsSafe Own i change) bs
      → All (λ b. b.id ≡ i → Own b) bs
      → IsCalendar bs
      → IsCalendar (update_where (λ b. b.id == i) change bs)
  unfolding update_where
  update-IsCalendar [] s own h = tt
  update-IsCalendar (b ∷ bs) (s, ss) (own, os) (h, r) = elim (Bool-cases (b.id == i)) [
    | inl e ↦ rw e (moved_head b bs e (own (ground arith)) ss h, update-IsCalendar bs ss os r)
    | inr e ↦ rw e (kept_head b bs s os h, update-IsCalendar bs ss os r)
  ]

-- A change that keeps the identifier, the token, the coach and the times, and either makes each row
-- inactive or keeps its status.
pub record IsHarmless (change : Booking → Booking) : Type 0 where
  pub id : (b : Booking) → (change b).id ≡ b.id
  pub token : (b : Booking) → (change b).manage_token ≡ b.manage_token
  pub coach : (b : Booking) → (change b).coach_id ≡ b.coach_id
  pub start : (b : Booking) → (change b).start_at ≡ b.start_at
  pub end : (b : Booking) → (change b).end_at ≡ b.end_at
  pub status :
      ((b : Booking) → is_confirmed (change b).status ≡ false)
      ⊎ ((b : Booking) → (change b).status ≡ b.status)

abbrev Every : Booking → Type 0
Every b = Unit

harmless-IsSafe :
    (i : ℕ) (change : Booking → Booking)
    → IsHarmless change
    → (c : Booking) → IsSafe Every i change c
unfolding clash
harmless-IsSafe i change h c b e own k = elim h.status [
  | inl off ↦ ground (arith, h.id b, h.token b, h.coach b, h.start b, h.end b, off b)
  | inr same ↦ ground (arith, h.id b, h.token b, h.coach b, h.start b, h.end b, same b)
]

pub harmless-IsCalendar :
    (i : ℕ) (change : Booking → Booking) (bs : List Booking)
    → IsHarmless change
    → IsCalendar bs
    → IsCalendar (update_where (λ b. b.id == i) change bs)
harmless-IsCalendar i change bs h k =
    update-IsCalendar Every i change h.id bs
      (All-of_In (IsSafe Every i change) bs (λ c _. harmless-IsSafe i change h c))
      (All-of_In (λ b. b.id ≡ i → Every b) bs (λ _ _ _. tt)) k

new_row :
    (c row : Booking)
    → (c.id == row.id || c.manage_token == row.manage_token) ≡ false
    → overlaps row.coach_id row.start_at row.end_at none c ≡ false
    → Compatible c row
unfolding clash overlaps
new_row c row fresh free = record {
  ids = ground arith;
  tokens = ground arith;
  apart = ground arith;
}

-- A row that no row of the table overlaps can be added, under a new identifier and token.
pub reserve-IsCalendar :
    (bs : List Booking) (row : Booking)
    → any (λ b. b.id == row.id || b.manage_token == row.manage_token) bs ≡ false
    → any (overlaps row.coach_id row.start_at row.end_at none) bs ≡ false
    → IsCalendar bs
    → IsCalendar (bs ++ row ∷ [])
reserve-IsCalendar bs row fresh free h = append-IsCalendar bs row h (
    All-of_In (λ c. Compatible c row) bs
      (λ c m.
        new_row c row (All-In _ c bs (any-eq-false _ bs fresh) m)
          (All-In _ c bs (any-eq-false _ bs free) m)))

moved_row :
    (i coach_id start_at end_at : ℕ) (c : Booking)
    → overlaps coach_id start_at end_at (some i) c ≡ false
    → IsSafe (λ b. b.coach_id ≡ coach_id) i (set_times start_at end_at) c
unfolding clash overlaps
moved_row i coach_id start_at end_at c free b e own k = record {
  ids = k.ids;
  tokens = k.tokens;
  apart = ground (arith, k.ids);
}

-- A row can be moved to times which no other row of its coach overlaps.
pub move-IsCalendar :
    (bs : List Booking) (i coach_id start_at end_at : ℕ)
    → All (λ b. b.id ≡ i → b.coach_id ≡ coach_id) bs
    → any (overlaps coach_id start_at end_at (some i)) bs ≡ false
    → IsCalendar bs
    → IsCalendar (update_where (λ b. b.id == i) (set_times start_at end_at) bs)
move-IsCalendar bs i coach_id start_at end_at own free h =
    update-IsCalendar (λ b. b.coach_id ≡ coach_id) i (set_times start_at end_at) (λ b. refl) bs
      (All-of_In _ bs
        (λ c m. moved_row i coach_id start_at end_at c (All-In _ c bs (any-eq-false _ bs free) m)))
      own h

-- In a calendar an identifier names one row.
pub one_row :
    (bs : List Booking) (b c : Booking) → IsCalendar bs → In b bs → In c bs → b.id ≡ c.id → b ≡ c
one_row [] b c h m n e = elim m [ ]
one_row (x ∷ bs) b c (h, r) (here p) (here q) e = sym p ∙ q
one_row (x ∷ bs) b c (h, r) (here p) (there n) e =
    absurd ((All-In (Compatible x) c bs h n).ids (rw p e))
one_row (x ∷ bs) b c (h, r) (there m) (here q) e =
    absurd ((All-In (Compatible x) b bs h m).ids (rw q (sym e)))
one_row (x ∷ bs) b c (h, r) (there m) (there n) e = one_row bs b c r m n e
