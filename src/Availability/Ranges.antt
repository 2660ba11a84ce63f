-- ===== src/Availability/Ranges.antt =====
-- availability/availability.types.ts and availability/availability.service.ts
use betti_coaching_calendar.Prelude.{
  ℕ, zero, suc, ◌+◌, ◌*◌, ◌-◌, Bool, true, false, ◌&&◌, ◌==◌, ltb, leb, Option, none, some, List,
  [], ◌∷◌, ◌++◌, map, keep, any, get_or, if◌then◌else◌,
}
use betti_coaching_calendar.Schema.{Db, WeeklyAvailability, AvailabilityOverride}
use betti_coaching_calendar.Common.Luxon.{Zone, minute_ms}

pub record MinuteRange : Type 0 where
  pub start_minute : ℕ
  pub end_minute : ℕ

unfoldable pub ranges_overlap : MinuteRange → MinuteRange → Bool
ranges_overlap a b = ltb a.start_minute b.end_minute && ltb b.start_minute a.end_minute

-- `{ startMinute: o.startMinute!, endMinute: o.endMinute! }`; a null counts as 0 in comparisons
unfoldable pub override_range : AvailabilityOverride → MinuteRange
override_range o = record {
  start_minute = get_or o.start_minute 0;
  end_minute = get_or o.end_minute 0;
}

unfoldable pub weekly_range : WeeklyAvailability → MinuteRange
weekly_range w = record { start_minute = w.start_minute; end_minute = w.end_minute }

abbrev is_unavailable : AvailabilityOverride → Bool
is_unavailable o = o.is_unavailable

-- the ranges of a date that has overrides
unfoldable pub override_ranges : List AvailabilityOverride → List MinuteRange
unfolding override_range any
override_ranges os = if any is_unavailable os then [] else map override_range os

abbrev pub has_rows : List AvailabilityOverride → Bool
has_rows [] = false
has_rows (_ ∷ _) = true

unfoldable pub get_effective_ranges_for_date : Db → Zone → ℕ → ℕ → List MinuteRange
unfolding override_ranges weekly_range keep
get_effective_ranges_for_date db zone coach_id date =
    let overrides = keep (λ o. o.coach_id == coach_id && o.date == date) db.overrides in
    let weekday = zone.weekday date in
    let weekly = keep (λ w. w.coach_id == coach_id && w.weekday == weekday) db.weekly in
    if has_rows overrides then override_ranges overrides else map weekly_range weekly

-- A JavaScript `Map` from numbers, in insertion order.
abbrev pub NumMap {ℓ} : Type ℓ → Type ℓ
NumMap V = List (ℕ × V)

module _ {ℓ} {V : Type ℓ} where
  unfoldable pub get : ℕ → NumMap V → Option V
  get k [] = none
  get k ((j, v) ∷ m) = if j == k then some v else get k m

  unfoldable pub set : ℕ → V → NumMap V → NumMap V
  set k v [] = (k, v) ∷ []
  set k v ((j, w) ∷ m) = let rest = set k v m in if j == k then (k, v) ∷ m else (j, w) ∷ rest

  -- `list ? list.push(v) : map.set(key, [v])`
  unfoldable pub push : ℕ → V → NumMap (List V) → NumMap (List V)
  push k v [] = (k, v ∷ []) ∷ []
  push k v ((j, vs) ∷ m) =
      let rest = push k v m in if j == k then (j, vs ++ v ∷ []) ∷ m else (j, vs) ∷ rest

-- the two grouping loops, with the map that they fill
unfoldable pub overrides_by_date :
    NumMap (List AvailabilityOverride)
    → List AvailabilityOverride
    → NumMap (List AvailabilityOverride)
unfolding push
overrides_by_date m [] = m
overrides_by_date m (o ∷ os) = overrides_by_date (push o.date o m) os

unfoldable pub weekly_by_weekday :
    NumMap (List MinuteRange) → List WeeklyAvailability → NumMap (List MinuteRange)
unfolding push weekly_range
weekly_by_weekday m [] = m
weekly_by_weekday m (w ∷ ws) = weekly_by_weekday (push w.weekday (weekly_range w) m) ws

-- the body of the loop over the days: what `result` gets for one date
unfoldable pub ranges_of_day :
    Zone → NumMap (List AvailabilityOverride) → NumMap (List MinuteRange) → ℕ → List MinuteRange
unfolding override_ranges get
ranges_of_day zone overrides weekly day =
    let day_overrides = get_or (get day overrides) [] in
    if has_rows day_overrides
    then override_ranges day_overrides
    else get_or (get (zone.weekday day) weekly) []

-- the loop over `rounds` days from `day`
unfoldable pub fill_days :
    (ℕ → List MinuteRange) → ℕ → ℕ → NumMap (List MinuteRange) → NumMap (List MinuteRange)
unfolding set
fill_days ranges zero day result = result
fill_days ranges (suc rounds) day result =
    fill_days ranges rounds (day + 1) (set day (ranges day) result)

unfoldable pub get_effective_ranges_for_date_range :
    Db → Zone → ℕ → ℕ → ℕ → NumMap (List MinuteRange)
unfolding overrides_by_date weekly_by_weekday ranges_of_day fill_days keep
get_effective_ranges_for_date_range db zone coach_id from to =
    let overrides =
      keep (λ o. o.coach_id == coach_id && (leb from o.date && leb o.date to)) db.overrides in
    let weekly = keep (λ w. w.coach_id == coach_id) db.weekly in
    fill_days (ranges_of_day zone (overrides_by_date [] overrides) (weekly_by_weekday [] weekly))
      (to + 1 - from) from []

-- `candidate.endMinute` may be a fraction of a minute: it is given in milliseconds.
pub record Candidate : Type 0 where
  pub start_minute : ℕ
  pub end_ms : ℕ

unfoldable pub fits : Candidate → MinuteRange → Bool
fits candidate range =
    leb range.start_minute candidate.start_minute
    && leb candidate.end_ms (range.end_minute * minute_ms)

unfoldable pub is_within_effective_range : Db → Zone → ℕ → ℕ → Candidate → Bool
is_within_effective_range db zone coach_id date candidate =
    any (fits candidate) (get_effective_ranges_for_date db zone coach_id date)
