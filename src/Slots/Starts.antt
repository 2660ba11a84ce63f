-- ===== src/Slots/Starts.antt =====
-- The two inner loops of slots/slots.service.ts: the start minutes of a range, and those of them
-- which are offered.
use betti_coaching_calendar.Prelude.{
  ℕ, zero, suc, ◌+◌, ◌*◌, ◌≤◌, ◌<◌, ◌≡◌, refl, sym, ◌∙◌, ap, true, leb, List, [], ◌∷◌, In, here,
  there, inl, inr, Bool-cases, arith,
}
use betti_coaching_calendar.Slots.{Slot, Offer, slot_starts, slot_at, is_offered, offered_slots}

-- A start minute lies a whole number of durations behind the start of its range and leaves room for
-- one more before the end.
abbrev pub IsStart : ℕ → ℕ → ℕ → ℕ → Type 0
IsStart start duration end m = (k : ℕ) × (m ≡ start + k * duration) × (m + duration ≤ end)

IsStart-cons :
    (start duration end m : ℕ) (rest : List ℕ)
    → start + duration ≤ end
    → (In m rest → IsStart (start + duration) duration end m)
    → In m (start ∷ rest)
    → IsStart start duration end m
IsStart-cons start duration end m rest fits ih (here e) = (0, omega arith, omega arith)
IsStart-cons start duration end m rest fits ih (there i) =
    let (k, e, p) = ih i in (suc k, grind arith, p)

pub slot_starts_sound :
    (rounds start duration end m : ℕ)
    → In m (slot_starts rounds start duration end)
    → IsStart start duration end m
unfolding slot_starts
slot_starts_sound zero start duration end m i = elim i [ ]
slot_starts_sound (suc rounds) start duration end m i =
    let ih = slot_starts_sound rounds (start + duration) duration end m in
    elim (Bool-cases (leb (start + duration) end)) [
      | inl e ↦ IsStart-cons start duration end m _ (ground arith) ih (rw e at i)
      | inr e ↦ nothing (rw e at i)
    ]
  where
    nothing : In m [] → IsStart start duration end m
    nothing h = elim h [ ]

pub slot_starts_complete :
    (rounds start duration end k m : ℕ)
    → 0 < duration
    → end < start + rounds
    → m ≡ start + k * duration
    → m + duration ≤ end
    → In m (slot_starts rounds start duration end)
unfolding slot_starts
slot_starts_complete zero start duration end k m p q e r = absurd (grind arith)
slot_starts_complete (suc rounds) start duration end zero m p q e r =
    let fits : leb (start + duration) end ≡ true = ground arith in rw fits (here (omega arith))
slot_starts_complete (suc rounds) start duration end (suc k) m p q e r =
    let fits : leb (start + duration) end ≡ true = grind arith in
    rw fits (
      there (
        slot_starts_complete rounds (start + duration) duration end k m p (omega arith)
          (grind arith) r))

module _ (offer : Offer) (day : ℕ) (s : Slot) where
  offered_cons :
      (m : ℕ) (ms : List ℕ)
      → (In s (offered_slots offer day ms)
          → (k : ℕ) × In k ms × (s ≡ slot_at offer day k) × (is_offered offer s ≡ true))
      → is_offered offer (slot_at offer day m) ≡ true
      → In s (slot_at offer day m ∷ offered_slots offer day ms)
      → (k : ℕ) × In k (m ∷ ms) × (s ≡ slot_at offer day k) × (is_offered offer s ≡ true)
  offered_cons m ms ih ok (here e) = (m, here refl, sym e, rw (← e) ok)
  offered_cons m ms ih ok (there i) = let (k, n, e, o) = ih i in (k, there n, e, o)

  pub offered_slots_sound :
      (ms : List ℕ)
      → In s (offered_slots offer day ms)
      → (k : ℕ) × In k ms × (s ≡ slot_at offer day k) × (is_offered offer s ≡ true)
  unfolding offered_slots
  offered_slots_sound [] i = elim i [ ]
  offered_slots_sound (m ∷ ms) i = elim (Bool-cases (is_offered offer (slot_at offer day m))) [
    | inl e ↦ offered_cons m ms (offered_slots_sound ms) e (rw e at i)
    | inr e ↦ let (k, n, p, o) = offered_slots_sound ms (rw e at i) in (k, there n, p, o)
  ]

  pub offered_slots_complete :
      (ms : List ℕ) (k : ℕ)
      → In k ms
      → s ≡ slot_at offer day k
      → is_offered offer s ≡ true
      → In s (offered_slots offer day ms)
  unfolding offered_slots
  offered_slots_complete [] k i e o = elim i [ ]
  offered_slots_complete (m ∷ ms) k (here p) e o =
      let same : s ≡ slot_at offer day m = e ∙ ap (slot_at offer day) (sym p) in
      let ok : is_offered offer (slot_at offer day m) ≡ true = rw (← same) o in
      rw ok (here (sym same))
  offered_slots_complete (m ∷ ms) k (there i) e o =
      elim (Bool-cases (is_offered offer (slot_at offer day m))) [
        | inl q ↦ rw q (there (offered_slots_complete ms k i e o))
        | inr q ↦ rw q (offered_slots_complete ms k i e o)
      ]
