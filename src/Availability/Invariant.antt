-- ===== src/Availability/Invariant.antt =====
-- What the two availability tables hold, whatever the requests.
use betti_coaching_calendar.Prelude.{
  get_or, is_some, ◌&&◌, ◌⊎◌, leb, ℕ, ◌≤◌, ◌<◌, ◌≡◌, Bool, true, false, ◌==◌, Option, none, some,
  List, [], ◌∷◌, find, refl, In, All, All-keep, All-update_where, All-In, find-In, Bool-cases, inl,
  inr, arith, All-append, if◌then◌else◌,
}
use betti_coaching_calendar.Http.{Error, plain, Result, ok, err}
use betti_coaching_calendar.Schema.{Db, Coach, WeeklyAvailability, AvailabilityOverride}
use betti_coaching_calendar.Common.Ownership.{owns-cases}
use betti_coaching_calendar.Availability.Weekly
use betti_coaching_calendar.Availability.Overrides
use betti_coaching_calendar.Availability.Requests.{
  Request, create_weekly, update_weekly, remove_weekly, create_override, update_override,
  remove_override, validate, handle, serve,
}

-- A weekly row has a weekday of 1 to 7 and a non-empty range of minutes within a day.
abbrev pub IsWeeklyRow : WeeklyAvailability → Type 0
IsWeeklyRow w =
    (1 ≤ w.weekday) × (w.weekday ≤ 7) × (w.start_minute < w.end_minute) × (w.end_minute ≤ 1440)

-- the two minutes of an override
abbrev pub AreMinutes : Bool → Option ℕ → Option ℕ → Type 0
AreMinutes true none none = Unit
AreMinutes false (some s) (some e) = (s < e) × (e ≤ 1440)
AreMinutes _ _ _ = ⊥

abbrev pub IsOverrideRow : AvailabilityOverride → Type 0
IsOverrideRow o = AreMinutes o.is_unavailable o.start_minute o.end_minute

pub record IsSchedule (db : Db) : Type 0 where
  pub weekly : All IsWeeklyRow db.weekly
  pub overrides : All IsOverrideRow db.overrides

module _ (coach : Coach) (id : ℕ) (db : Db) where
  -- The ownership check throws, or answers with a row of the table.
  weekly_owned :
      ((e : Error) × (Weekly.assert_ownership coach id db ≡ (err e, db)))
      ⊎ ((row : WeeklyAvailability) × In row db.weekly
          × (Weekly.assert_ownership coach id db ≡ (ok row, db)))
  unfolding Weekly.assert_ownership
  weekly_owned =
      elim (owns-cases (λ (w : WeeklyAvailability). w.coach_id) coach
        (plain "Weekly availability entry not found") (find (λ w. w.id == id) db.weekly)) [
          | inl (e, q) ↦ inl (e, rw q)
          | inr (row, found, q) ↦ inr (row, find-In _ db.weekly row found, rw q)
        ]

  override_owned :
      ((e : Error) × (Overrides.assert_ownership coach id db ≡ (err e, db)))
      ⊎ ((row : AvailabilityOverride) × In row db.overrides
          × (Overrides.assert_ownership coach id db ≡ (ok row, db)))
  unfolding Overrides.assert_ownership
  override_owned =
      elim (owns-cases (λ (o : AvailabilityOverride). o.coach_id) coach
        (plain "Availability override not found") (find (λ o. o.id == id) db.overrides)) [
          | inl (e, q) ↦ inl (e, rw q)
          | inr (row, found, q) ↦ inr (row, find-In _ db.overrides row found, rw q)
        ]

module _ (id : ℕ) (coach : Coach) (db : Db) (inv : IsSchedule db) where
  create_weekly-IsSchedule :
      (dto : Weekly.CreateWeeklyAvailabilityDto)
      → Weekly.validate_create dto ≡ true
      → IsSchedule (Weekly.create id coach dto db).1
  unfolding Weekly.create Weekly.validate_create
  create_weekly-IsSchedule dto valid = elim (Bool-cases (leb dto.end_minute dto.start_minute)) [
    | inl e ↦ rw e inv
    | inr e ↦ rw e (record {
      weekly = All-append IsWeeklyRow db.weekly _ inv.weekly (ground arith);
      overrides = inv.overrides;
    })
  ]

  merge-IsWeeklyRow :
      (dto : Weekly.UpdateWeeklyAvailabilityDto) (row : WeeklyAvailability)
      → Weekly.validate_update dto ≡ true
      → IsWeeklyRow row
      → leb (Weekly.merge dto row).end_minute (Weekly.merge dto row).start_minute ≡ false
      → (w : WeeklyAvailability) → IsWeeklyRow (Weekly.store (Weekly.merge dto row) w)
  unfolding Weekly.merge Weekly.store Weekly.validate_update
  merge-IsWeeklyRow dto row valid h e w = ground arith

  update_weekly-IsSchedule :
      (dto : Weekly.UpdateWeeklyAvailabilityDto)
      → Weekly.validate_update dto ≡ true
      → IsSchedule (Weekly.update coach id dto db).1
  unfolding Weekly.update
  update_weekly-IsSchedule dto valid = elim (weekly_owned coach id db) [
    | inl (e, q) ↦ rw q inv
    | inr (row, m, q) ↦
        rw q
          (elim (Bool-cases
            (leb (Weekly.merge dto row).end_minute (Weekly.merge dto row).start_minute)) [
              | inl e ↦ rw e inv
              | inr e ↦ rw e (record {
                weekly =
                    All-update_where IsWeeklyRow (λ w. w.id == id)
                      (Weekly.store (Weekly.merge dto row)) db.weekly
                      (λ w _ _.
                        merge-IsWeeklyRow dto row valid
                          (All-In IsWeeklyRow row db.weekly inv.weekly m) e w)
                      inv.weekly;
                overrides = inv.overrides;
              })
            ])
  ]

  remove_weekly-IsSchedule : IsSchedule (Weekly.remove coach id db).1
  unfolding Weekly.remove
  remove_weekly-IsSchedule = elim (weekly_owned coach id db) [
    | inl (e, q) ↦ rw q inv
    | inr (row, m, q) ↦
        rw q (record {
          weekly = All-keep IsWeeklyRow _ db.weekly inv.weekly;
          overrides = inv.overrides;
        })
  ]

-- the check that `create` and `update` make
abbrev checked : AvailabilityOverride → Result (Unit {0})
checked o = Overrides.check_hours o.is_unavailable o.start_minute o.end_minute

Result-cases : (r : Result (Unit {0})) → ((e : Error) × (r ≡ err e)) ⊎ (r ≡ ok tt)
Result-cases (ok tt) = inr refl
Result-cases (err e) = inl (e, refl)

module _ (id : ℕ) (coach : Coach) (db : Db) (inv : IsSchedule db) where
  new-IsOverrideRow :
      (off : Bool) (s e : Option ℕ)
      → (if off
          then true
          else is_some s && is_some e && Weekly.between? 0 1440 s && Weekly.between? 0 1440 e)
        ≡ true
      → Overrides.check_hours off s e ≡ ok tt
      → AreMinutes off (if off then none else s) (if off then none else e)
  unfolding Overrides.check_minutes
  new-IsOverrideRow true s e v h = tt
  new-IsOverrideRow false none e v h = cc
  new-IsOverrideRow false (some s) none v h = cc
  new-IsOverrideRow false (some s) (some e) v h = ground arith

  create_override-IsSchedule :
      (dto : Overrides.CreateAvailabilityOverrideDto)
      → Overrides.validate_create dto ≡ true
      → IsSchedule (Overrides.create id coach dto db).1
  unfolding Overrides.create Overrides.validate_create
  create_override-IsSchedule dto valid =
      let off : Bool = get_or dto.is_unavailable false in
      elim (Result-cases (Overrides.check_hours off dto.start_minute dto.end_minute)) [
        | inl (e, h) ↦ rw h inv
        | inr h ↦ rw h (record {
          weekly = inv.weekly;
          overrides =
              All-append IsOverrideRow db.overrides _ inv.overrides
                (new-IsOverrideRow off dto.start_minute dto.end_minute valid h, tt);
        })
      ]

  merge-IsOverrideRow :
      (dto : Overrides.UpdateAvailabilityOverrideDto) (row : AvailabilityOverride)
      → Overrides.validate_update dto ≡ true
      → IsOverrideRow row
      → checked (Overrides.merge dto row) ≡ ok tt
      → (o : AvailabilityOverride) → IsOverrideRow (Overrides.store (Overrides.merge dto row) o)
  unfolding Overrides.merge Overrides.store Overrides.validate_update Overrides.check_minutes
  merge-IsOverrideRow dto row valid h e o = ground arith

  update_override-IsSchedule :
      (dto : Overrides.UpdateAvailabilityOverrideDto)
      → Overrides.validate_update dto ≡ true
      → IsSchedule (Overrides.update coach id dto db).1
  unfolding Overrides.update
  update_override-IsSchedule dto valid = elim (override_owned coach id db) [
    | inl (e, q) ↦ rw q inv
    | inr (row, m, q) ↦ rw q (elim (Result-cases (checked (Overrides.merge dto row))) [
      | inl (e, h) ↦ rw h inv
      | inr h ↦ rw h (record {
        weekly = inv.weekly;
        overrides =
            All-update_where IsOverrideRow (λ o. o.id == id)
              (Overrides.store (Overrides.merge dto row)) db.overrides
              (λ o _ _.
                merge-IsOverrideRow dto row valid
                  (All-In IsOverrideRow row db.overrides inv.overrides m) h o)
              inv.overrides;
      })
    ])
  ]

  remove_override-IsSchedule : IsSchedule (Overrides.remove coach id db).1
  unfolding Overrides.remove
  remove_override-IsSchedule = elim (override_owned coach id db) [
    | inl (e, q) ↦ rw q inv
    | inr (row, m, q) ↦ rw q (record {
      weekly = inv.weekly;
      overrides = All-keep IsOverrideRow _ db.overrides inv.overrides;
    })
  ]

handle-IsSchedule :
    (coach : Coach) (request : Request) (db : Db)
    → validate request ≡ true
    → IsSchedule db
    → IsSchedule (handle coach request db)
unfolding validate handle
handle-IsSchedule coach (create_weekly id dto) db v inv =
    create_weekly-IsSchedule id coach db inv dto v
handle-IsSchedule coach (update_weekly id dto) db v inv =
    update_weekly-IsSchedule id coach db inv dto v
handle-IsSchedule coach (remove_weekly id) db v inv = remove_weekly-IsSchedule id coach db inv
handle-IsSchedule coach (create_override id dto) db v inv =
    create_override-IsSchedule id coach db inv dto v
handle-IsSchedule coach (update_override id dto) db v inv =
    update_override-IsSchedule id coach db inv dto v
handle-IsSchedule coach (remove_override id) db v inv = remove_override-IsSchedule id coach db inv

-- After any history of requests, by any coaches, whether they succeed or not, every weekly row has
-- a weekday of 1 to 7 and a non-empty range within the day, and every override is a day off
-- without minutes or has a non-empty range within the day, if this held before.
pub serve-IsSchedule :
    (requests : List (Coach × Request)) (db : Db) → IsSchedule db → IsSchedule (serve requests db)
unfolding serve
serve-IsSchedule [] db inv = inv
serve-IsSchedule ((coach, request) ∷ rest) db inv = elim (Bool-cases (validate request)) [
  | inl v ↦
      rw v
        (serve-IsSchedule rest (handle coach request db) (handle-IsSchedule coach request db v inv))
  | inr v ↦ rw v (serve-IsSchedule rest db inv)
]
