-- ===== src/Availability/RangeLaws.antt =====
-- The schedule of a range of dates is the schedule of each of its dates.
use betti_coaching_calendar.Prelude.{
  ℕ, zero, suc, ◌+◌, ◌-◌, ◌≤◌, ◌≡◌, refl, sym, ap, ◌∙◌, inl, inr, Bool-cases, true, false, ◌&&◌,
  ◌==◌, ltb, leb, none, some, List, [], ◌∷◌, ◌++◌, map, keep, get_or, if◌then◌else◌, arith,
  append-nil, append_assoc,
}
use betti_coaching_calendar.Schema.{Db, WeeklyAvailability, AvailabilityOverride}
use betti_coaching_calendar.Common.Luxon.{Zone}
use betti_coaching_calendar.Availability.Ranges.{
  MinuteRange, NumMap, get, set, push, overrides_by_date, weekly_by_weekday, weekly_range,
  fill_days, ranges_of_day, get_effective_ranges_for_date, get_effective_ranges_for_date_range,
}

module _ {ℓ} {V : Type ℓ} where
  get-set :
      (k j : ℕ) (v : V) (m : NumMap V) → get k (set j v m) ≡ (if j == k then some v else get k m)
  unfolding get set
  get-set k j v [] = refl
  get-set k j v ((i, w) ∷ m) = ground (arith, get-set k j v m)

  get-push :
      (k j : ℕ) (v : V) (m : NumMap (List V))
      → get_or (get k (push j v m)) [] ≡ get_or (get k m) [] ++ (if j == k then v ∷ [] else [])
  unfolding get push
  get-push k j v [] = ground arith
  get-push k j v ((i, w) ∷ m) = elim (Bool-cases (i == j)) [
    | inl e ↦ elim (Bool-cases (i == k)) [
      | inl f ↦ rw (e, f) (let g : (j == k) ≡ true = ground arith in rw g)
      | inr f ↦ rw (e, f) (let g : (j == k) ≡ false = ground arith in rw g (sym (append-nil _)))
    ]
    | inr e ↦ elim (Bool-cases (i == k)) [
      | inl f ↦ rw (e, f) (let g : (j == k) ≡ false = ground arith in rw g (sym (append-nil _)))
      | inr f ↦ rw (e, f) (get-push k j v m)
    ]
  ]

keep-cons-date :
    (d : ℕ) (o : AvailabilityOverride) (os : List AvailabilityOverride)
    → keep (λ x. x.date == d) (o ∷ os)
      ≡ (if o.date == d then o ∷ [] else []) ++ keep (λ x. x.date == d) os
unfolding keep
keep-cons-date d o os = ground arith

get-overrides_by_date :
    (d : ℕ) (m : NumMap (List AvailabilityOverride)) (os : List AvailabilityOverride)
    → get_or (get d (overrides_by_date m os)) [] ≡ get_or (get d m) [] ++ keep (λ o. o.date == d) os
unfolding overrides_by_date keep
get-overrides_by_date d m [] = sym (append-nil _)
get-overrides_by_date d m (o ∷ os) =
    get-overrides_by_date d (push o.date o m) os
    ∙ (rw get-push
        (rw append_assoc (ap (λ x. get_or (get d m) [] ++ x) (sym (keep-cons-date d o os)))))

-- `fill_days` sets each of its days once.
get-fill_days :
    (d : ℕ) (ranges : ℕ → List MinuteRange) (n day : ℕ) (m : NumMap (List MinuteRange))
    → get d (fill_days ranges n day m)
      ≡ (if leb day d && ltb d (day + n) then some (ranges d) else get d m)
unfolding fill_days
get-fill_days d ranges zero day m = ground arith
get-fill_days d ranges (suc n) day m = ground (
  arith,
  get-fill_days d ranges n (day + 1) (set day (ranges day) m),
  get-set d day (ranges day) m,
)

map-keep-cons :
    (k : ℕ) (w : WeeklyAvailability) (ws : List WeeklyAvailability)
    → (if w.weekday == k then weekly_range w ∷ [] else [])
        ++ map weekly_range (keep (λ x. x.weekday == k) ws)
      ≡ map weekly_range (keep (λ x. x.weekday == k) (w ∷ ws))
unfolding keep
map-keep-cons k w ws = elim (Bool-cases (w.weekday == k)) [ inl e ↦ rw e | inr e ↦ rw e ]

get-weekly_by_weekday :
    (k : ℕ) (m : NumMap (List MinuteRange)) (ws : List WeeklyAvailability)
    → get_or (get k (weekly_by_weekday m ws)) []
      ≡ get_or (get k m) [] ++ map weekly_range (keep (λ w. w.weekday == k) ws)
unfolding weekly_by_weekday keep
get-weekly_by_weekday k m [] = sym (append-nil _)
get-weekly_by_weekday k m (w ∷ ws) =
    get-weekly_by_weekday k (push w.weekday (weekly_range w) m) ws
    ∙ (rw get-push (rw append_assoc (ap (λ x. get_or (get k m) [] ++ x) (map-keep-cons k w ws))))

keep-keep_date :
    (coach_id from to d : ℕ) (os : List AvailabilityOverride)
    → from ≤ d
    → d ≤ to
    → keep
        (λ o. o.date == d)
        (keep (λ o. o.coach_id == coach_id && (leb from o.date && leb o.date to)) os)
      ≡ keep (λ o. o.coach_id == coach_id && o.date == d) os
unfolding keep
keep-keep_date coach_id from to d [] p q = refl
keep-keep_date coach_id from to d (o ∷ os) p q =
    ground (arith, keep-keep_date coach_id from to d os)

keep-keep_weekday :
    (coach_id k : ℕ) (ws : List WeeklyAvailability)
    → keep (λ w. w.weekday == k) (keep (λ w. w.coach_id == coach_id) ws)
      ≡ keep (λ w. w.coach_id == coach_id && w.weekday == k) ws
unfolding keep
keep-keep_weekday coach_id k [] = refl
keep-keep_weekday coach_id k (w ∷ ws) = ground (arith, keep-keep_weekday coach_id k ws)

module _ (db : Db) (zone : Zone) (coach_id from to d : ℕ) where
  abbrev in_range : List AvailabilityOverride
  in_range = keep (λ o. o.coach_id == coach_id && (leb from o.date && leb o.date to)) db.overrides

  abbrev of_coach : List WeeklyAvailability
  of_coach = keep (λ w. w.coach_id == coach_id) db.weekly

  ranges_of_day-eq :
      from ≤ d
      → d ≤ to
      → ranges_of_day zone (overrides_by_date [] in_range) (weekly_by_weekday [] of_coach) d
        ≡ get_effective_ranges_for_date db zone coach_id d
  unfolding ranges_of_day get_effective_ranges_for_date
  ranges_of_day-eq p q = rw (
    get-overrides_by_date d [] in_range,
    get-weekly_by_weekday (zone.weekday d) [] of_coach,
    keep-keep_date coach_id from to d db.overrides p q,
    keep-keep_weekday coach_id (zone.weekday d) db.weekly,
  )

-- The map that the two queries for a whole range of dates give holds, for each date of the range,
-- the very ranges that the queries for that single date give, and nothing for any other date.
pub get-date_range :
    (db : Db) (zone : Zone) (coach_id from to d : ℕ)
    → get d (get_effective_ranges_for_date_range db zone coach_id from to) ≡ (
        if leb from d && leb d to
        then some (get_effective_ranges_for_date db zone coach_id d)
        else none)
unfolding get_effective_ranges_for_date_range
get-date_range db zone coach_id from to d = ground (
  arith,
  get-fill_days d
      (ranges_of_day zone (overrides_by_date [] (in_range db zone coach_id from to d))
        (weekly_by_weekday [] (of_coach db zone coach_id from to d)))
      (to + 1 - from) from [],
  ranges_of_day-eq db zone coach_id from to d,
)
