-- ===== src/Settings/Profiles.antt =====
-- What the settings of the coaches are after any requests.
use betti_coaching_calendar.Prelude.{
  ℕ, ◌≡◌, ◌≢◌, refl, sym, ◌∙◌, Bool, true, not, ◌==◌, leb, String, Option, none, some, List, [],
  ◌∷◌, find, All, All-append, All-update_where, Pairwise, append-Pairwise, updated-same,
  update-Pairwise, update_where, Bool-cases, Option-cases, inl, inr, and-eq-true, passed, arith,
}
use betti_coaching_calendar.Http.{failure, prisma_error}
use betti_coaching_calendar.Action.{find_or_throw, modify, pure, ◌>>=◌, ◌>>◌}
use betti_coaching_calendar.Action.Keeps.{
  Keeps, Keeps-bind, Keeps-unless, Keeps-modify, Keeps-find_or_throw, Keeps-pure,
}
use betti_coaching_calendar.Schema.{Db, Settings}
use betti_coaching_calendar.Common.Json.{Json}
use betti_coaching_calendar.Settings as SettingsService
use betti_coaching_calendar.Settings.{default_settings, find_settings, find_coach, upsert}
use betti_coaching_calendar.Settings.Palette.{is_valid_email_brand_palette}
use betti_coaching_calendar.Settings.Update.{
  Field, absent, null, value, UpdateSettingsDto, passes, over, over_optional, max_notice_hours,
  is_valid_body, has_forbidden_null, apply, is_of, set_settings, update, Request, get, patch,
  handle,
}

abbrev pub is_valid_stored : Option Json → Bool
is_valid_stored none = true
is_valid_stored (some palette) = is_valid_email_brand_palette palette

module _ (is_time_zone : String → Bool) where
  pub record IsProfile (s : Settings) : Type 0 where
    pub notice : leb s.cancellation_notice_hours max_notice_hours ≡ true
    pub zone : is_time_zone s.business_timezone ≡ true
    pub palette : is_valid_stored s.email_brand_palette ≡ true

  -- one profile for a coach, and each a valid one
  pub record IsProfiles (db : Db) : Type 0 where
    pub own : Pairwise (λ (s t : Settings). s.coach_id ≢ t.coach_id) db.settings
    pub valid : All IsProfile db.settings

  -- requests one after the other, whether they succeed or not
  unfoldable pub serve : List Request → Db → Db
  serve [] db = db
  serve (r ∷ rs) db = serve rs (handle is_time_zone r db).1

  apply-IsProfile :
      (dto : UpdateSettingsDto) (s : Settings)
      → is_valid_body is_time_zone dto ≡ true
      → passes is_valid_email_brand_palette dto.email_brand_palette ≡ true
      → IsProfile s
      → IsProfile (apply dto s)
  unfolding is_valid_body
  apply-IsProfile dto s body palette v =
      let (notice, zone) =
        and-eq-true (passes (λ hours. leb hours max_notice_hours) dto.cancellation_notice_hours)
          (passes is_time_zone dto.business_timezone) body in
      record {
        notice =
            field (λ hours. leb hours max_notice_hours) s.cancellation_notice_hours
              dto.cancellation_notice_hours notice v.notice;
        zone = field is_time_zone s.business_timezone dto.business_timezone zone v.zone;
        palette = optional s.email_brand_palette dto.email_brand_palette palette v.palette;
      }
    where
      field :
          {A : Type 0} (p : A → Bool) (a : A) (f : Field A)
          → passes p f ≡ true
          → p a ≡ true
          → p (over f a) ≡ true
      field p a absent k h = h
      field p a null k h = h
      field p a (value b) k h = k

      optional :
          (o : Option Json) (f : Field Json)
          → passes is_valid_email_brand_palette f ≡ true
          → is_valid_stored o ≡ true
          → is_valid_stored (over_optional f o) ≡ true
      optional o absent k h = h
      optional o null k h = refl
      optional o (value b) k h = k

  fresh-own :
      (coach_id : ℕ) (xs : List Settings)
      → find (λ s. s.coach_id == coach_id) xs ≡ none
      → All (λ s. s.coach_id ≢ (default_settings coach_id).coach_id) xs
  unfolding find
  fresh-own coach_id [] h = tt
  fresh-own coach_id (x ∷ xs) h = elim (Bool-cases (x.coach_id == coach_id)) [
    | inl e ↦ absurd (ground arith)
    | inr e ↦ (λ q. ground arith, fresh-own coach_id xs (ground arith))
  ]

  get-Keeps :
      (coach_id : ℕ)
      → is_time_zone "Europe/Budapest" ≡ true
      → Keeps IsProfiles (SettingsService.get coach_id)
  unfolding SettingsService.get ◌>>=◌
  get-Keeps coach_id zone = record {
    at = λ db inv. elim (Option-cases (find_coach coach_id db)) [
      | inl n ↦ rw n inv
      | inr (c, n) ↦ elim (Option-cases (find_settings coach_id db)) [
        | inl f ↦
            rw (n, f)
              (record {
                own =
                    append-Pairwise _ db.settings (default_settings coach_id) inv.own
                      (fresh-own coach_id db.settings f);
                valid =
                    All-append IsProfile db.settings (default_settings coach_id ∷ []) inv.valid
                      (record { notice = refl; zone = zone; palette = refl }, tt);
              })
        | inr (row, f) ↦ rw (n, f) inv
      ]
    ];
  }

  store-IsProfiles :
      (coach_id : ℕ) (dto : UpdateSettingsDto) (db : Db)
      → is_valid_body is_time_zone dto ≡ true
      → passes is_valid_email_brand_palette dto.email_brand_palette ≡ true
      → IsProfiles db
      → IsProfiles (set_settings (update_where (is_of coach_id) (apply dto)) db)
  store-IsProfiles coach_id dto db body palette inv =
      let same =
        updated-same (is_of coach_id) (apply dto) (λ (s : Settings). s.coach_id) (λ s. refl) in
      record {
        own =
            update-Pairwise _ (is_of coach_id) (apply dto) db.settings
              (λ x y _ _ h q. h (sym (same x) ∙ q ∙ same y)) inv.own;
        valid =
            All-update_where IsProfile (is_of coach_id) (apply dto) db.settings
              (λ s _ v. apply-IsProfile dto s body palette v) inv.valid;
      }

  -- the writes of an update, after its checks
  write-Keeps :
      (coach_id : ℕ) (dto : UpdateSettingsDto)
      → is_valid_body is_time_zone dto ≡ true
      → passes is_valid_email_brand_palette dto.email_brand_palette ≡ true
      → Keeps IsProfiles (
          find_or_throw (find_settings coach_id) (prisma_error "P2025") >>= λ row.
          modify (set_settings (update_where (is_of coach_id) (apply dto))) >> pure (apply dto row))
  write-Keeps coach_id dto body palette =
      Keeps-bind _ _ (Keeps-find_or_throw (find_settings coach_id) _) (λ row.
        Keeps-bind _ _
          (Keeps-modify (set_settings (update_where (is_of coach_id) (apply dto)))
            (λ db inv. store-IsProfiles coach_id dto db body palette inv))
          (λ _. Keeps-pure (apply dto row)))

  handle-Keeps :
      (r : Request)
      → is_time_zone "Europe/Budapest" ≡ true
      → Keeps IsProfiles (handle is_time_zone r)
  unfolding handle update
  handle-Keeps (get coach_id) zone = get-Keeps coach_id zone
  handle-Keeps (patch coach_id dto) zone =
      Keeps-unless (not (is_valid_body is_time_zone dto)) _ _ (λ body.
        Keeps-bind _ _ (get-Keeps coach_id zone) (λ _.
          Keeps-unless (not (passes is_valid_email_brand_palette dto.email_brand_palette)) _ _
            (λ palette.
              Keeps-unless (has_forbidden_null dto) (failure "PrismaClientValidationError") _
                (λ _. write-Keeps coach_id dto (passed _ body) (passed _ palette)))))

  -- After any history of requests to the settings, whether they succeed or not, no coach has two
  -- profiles, and every profile has a notice window of at most 30 days, a valid time zone and a
  -- complete palette or none, if this held before and the default zone is a valid one.
  pub serve-IsProfiles :
      (requests : List Request) (db : Db)
      → is_time_zone "Europe/Budapest" ≡ true
      → IsProfiles db
      → IsProfiles (serve requests db)
  unfolding serve
  serve-IsProfiles [] db zone inv = inv
  serve-IsProfiles (r ∷ rs) db zone inv =
      serve-IsProfiles rs (handle is_time_zone r db).1 zone ((handle-Keeps r zone).at db inv)
