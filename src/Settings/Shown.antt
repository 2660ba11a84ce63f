-- ===== src/Settings/Shown.antt =====
-- What an update of the settings shows to the requests after it.
use betti_coaching_calendar.Prelude.{
  ℕ, ◌≡◌, ◌≢◌, refl, ap, ◌∙◌, true, false, not, ◌==◌, some, [], ◌∷◌, ◌++◌, find, find-update_where,
  find-update_where_apart, find-snoc, find-snoc_new, update_where, none, Option, sym, subst,
  Option-cases, inl, inr, passed, arith,
}
use betti_coaching_calendar.Http.{prisma_error, failure, Result, ok}
use betti_coaching_calendar.Action.{◌>>=◌}
use betti_coaching_calendar.Action.Inversion.{bind-ok, find-ok, throw_if-ok}
use betti_coaching_calendar.Schema.{Db, Settings, Coach}
use betti_coaching_calendar.Settings as SettingsService
use betti_coaching_calendar.Settings.{default_settings, find_settings, find_coach}
use betti_coaching_calendar.Settings.Palette.{is_valid_email_brand_palette}
use betti_coaching_calendar.Settings.Update.{
  Field, absent, null, value, over, over_optional, UpdateSettingsDto, passes, has_forbidden_null,
  apply, is_of, set_settings, invalid_palette, update,
}

-- what a successful read leaves
record IsRead (coach_id : ℕ) (db : Db) (row : Settings) (db' : Db) : Type 0 where
  stored : find_settings coach_id db' ≡ some row
  coaches : db'.coaches ≡ db.coaches
  known : (c : Coach) × (find_coach coach_id db ≡ some c)
  others : (other : ℕ) → other ≢ coach_id → find_settings other db' ≡ find_settings other db

get-IsRead :
    (coach_id : ℕ) (db : Db) (row : Settings) (db' : Db)
    → SettingsService.get coach_id db ≡ (ok row, db')
    → IsRead coach_id db row db'
unfolding SettingsService.get ◌>>=◌
get-IsRead coach_id db row db' h = elim (Option-cases (find_coach coach_id db)) [
  | inl n ↦ absurd (ground arith)
  | inr (c, n) ↦ elim (Option-cases (find_settings coach_id db)) [
    | inl f ↦
        let s = default_settings coach_id in
        let own : row ≡ s = ground arith in
        let left : db' ≡ record db { settings = db.settings ++ s ∷ [] } = ground arith in
        rw (own, left)
          (record {
            stored = find-snoc_new (is_of coach_id) db.settings s (ground arith) f;
            coaches = refl;
            known = (c, n);
            others = λ other k. find-snoc (is_of other) db.settings s (ground arith);
          })
    | inr (s, f) ↦
        let own : row ≡ s = ground arith in
        let left : db' ≡ db = ground arith in
        rw (own, left) (record { stored = f; coaches = refl; known = (c, n); others = λ _ _. refl })
  ]
]

get-found :
    (coach_id : ℕ) (db : Db) (row : Settings) (c : Coach)
    → find_coach coach_id db ≡ some c
    → find_settings coach_id db ≡ some row
    → SettingsService.get coach_id db ≡ (ok row, db)
unfolding SettingsService.get ◌>>=◌
get-found coach_id db row c n f = rw (n, f) refl

-- what a field of a body leaves in a column that always has a value: the value of the field, if it
-- has one, and otherwise the value of before
abbrev pub IsWritten {ℓ} : {A : Type ℓ} → Field A → A → A → Type ℓ
IsWritten (value a) old new = new ≡ a
IsWritten _ old new = new ≡ old

-- the same for a column that can be empty, which null empties
abbrev pub IsWrittenOr {ℓ} : {A : Type ℓ} → Field A → Option A → Option A → Type ℓ
IsWrittenOr (value a) old new = new ≡ some a
IsWrittenOr null old new = new ≡ none
IsWrittenOr absent old new = new ≡ old

over-IsWritten {ℓ} : {A : Type ℓ} (f : Field A) (old : A) → IsWritten f old (over f old)
over-IsWritten (value a) old = refl
over-IsWritten null old = refl
over-IsWritten absent old = refl

over-IsWrittenOr {ℓ} :
    {A : Type ℓ} (f : Field A) (old : Option A) → IsWrittenOr f old (over_optional f old)
over-IsWrittenOr (value a) old = refl
over-IsWrittenOr null old = refl
over-IsWrittenOr absent old = refl

-- each column of a row after an update
pub record IsApplied (dto : UpdateSettingsDto) (old new : Settings) : Type 0 where
  pub coach : new.coach_id ≡ old.coach_id
  pub address : IsWritten dto.business_address old.business_address new.business_address
  pub notice :
      IsWritten dto.cancellation_notice_hours old.cancellation_notice_hours
        new.cancellation_notice_hours
  pub zone : IsWritten dto.business_timezone old.business_timezone new.business_timezone
  pub sender : IsWrittenOr dto.email_from old.email_from new.email_from
  pub name : IsWrittenOr dto.brand_name old.brand_name new.brand_name
  pub tagline : IsWrittenOr dto.brand_tagline old.brand_tagline new.brand_tagline
  pub palette : IsWrittenOr dto.email_brand_palette old.email_brand_palette new.email_brand_palette

apply-IsApplied : (dto : UpdateSettingsDto) (old : Settings) → IsApplied dto old (apply dto old)
apply-IsApplied dto old = record {
  coach = refl;
  address = over-IsWritten dto.business_address old.business_address;
  notice = over-IsWritten dto.cancellation_notice_hours old.cancellation_notice_hours;
  zone = over-IsWritten dto.business_timezone old.business_timezone;
  sender = over-IsWrittenOr dto.email_from old.email_from;
  name = over-IsWrittenOr dto.brand_name old.brand_name;
  tagline = over-IsWrittenOr dto.brand_tagline old.brand_tagline;
  palette = over-IsWrittenOr dto.email_brand_palette old.email_brand_palette;
}

-- What a successful update went through and left.
pub record IsUpdated (coach_id : ℕ) (dto : UpdateSettingsDto) (db : Db) (row : Settings) (db' : Db)
    : Type 0 where
  pub before : Settings
  pub mid : Db
  pub read : SettingsService.get coach_id db ≡ (ok before, mid)
  pub palette : passes is_valid_email_brand_palette dto.email_brand_palette ≡ true
  pub nulls : has_forbidden_null dto ≡ false
  pub applied : IsApplied dto before row
  pub shown : SettingsService.get coach_id db' ≡ (ok row, db')
  pub others : (other : ℕ) → other ≢ coach_id → find_settings other db' ≡ find_settings other db

-- A successful update answers with the settings that a read showed before it, each column changed to
-- the value that the body has for it, emptied where the body has null and the column can be empty,
-- and kept where the body has no such field; a read shows this row from then on, and the settings of every other coach are
-- as before. The palette of the body is complete, null or absent, and no column that must have a
-- value was set to null.
pub update_lem :
    (coach_id : ℕ) (dto : UpdateSettingsDto) (db : Db) (row : Settings) (db' : Db)
    → update coach_id dto db ≡ (ok row, db')
    → IsUpdated coach_id dto db row db'
unfolding update
update_lem coach_id dto db row db' h =
    let (before, mid, read, h1) = bind-ok (SettingsService.get coach_id) _ db h in
    let (p, h2) =
      throw_if-ok (not (passes is_valid_email_brand_palette dto.email_brand_palette))
        invalid_palette _ mid h1 in
    let (nulls, h3) =
      throw_if-ok (has_forbidden_null dto) (failure "PrismaClientValidationError") _ mid h2 in
    let (old, f, h4) = find-ok (find_settings coach_id) (prisma_error "P2025") _ mid h3 in
    let r = get-IsRead coach_id db before mid read in written before mid old read p nulls f r h4
  where
    written :
        (before : Settings) (mid : Db) (old : Settings)
        → SettingsService.get coach_id db ≡ (ok before, mid)
        → not (passes is_valid_email_brand_palette dto.email_brand_palette) ≡ false
        → has_forbidden_null dto ≡ false
        → find_settings coach_id mid ≡ some old
        → IsRead coach_id db before mid
        → ◌≡◌ {A = Result Settings × Db}
            (ok (apply dto old), set_settings (update_where (is_of coach_id) (apply dto)) mid)
            (ok row, db')
        → IsUpdated coach_id dto db row db'
    written before mid old read p nulls f r h =
        let same : old ≡ before = (let q = r.stored in ground (arith, q, f)) in
        let e = find-update_where (is_of coach_id) (apply dto) mid.settings old (λ _. refl) f in
        let own : row ≡ apply dto before = (let s = ap (apply dto) same in ground (arith, s, h)) in
        let left : db' ≡ set_settings (update_where (is_of coach_id) (apply dto)) mid =
          ground arith in
        record {
          before = before;
          mid = mid;
          read = read;
          palette = passed _ p;
          nulls = nulls;
          applied = subst (IsApplied dto before) (sym own) (apply-IsApplied dto before);
          shown =
              rw (left, own)
                (get-found coach_id (set_settings (update_where (is_of coach_id) (apply dto)) mid)
                  (apply dto before) r.known.0
                  (ap (find (λ c. c.id == coach_id)) r.coaches ∙ r.known.1)
                  (e ∙ ap (λ s. some (apply dto s)) same));
          others = λ other k. rw left (
              find-update_where_apart (is_of other) (is_of coach_id) (apply dto) mid.settings
                (λ _. refl) (λ x q. ground arith)
              ∙ r.others other k);
        }
