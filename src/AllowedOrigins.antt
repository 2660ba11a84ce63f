-- ===== src/AllowedOrigins.antt =====
-- allowed-origins/allowed-origins.service.ts: the table of allowed origins and the cache that one
-- instance of the server keeps of it.
pub mod Staleness
pub mod Cors
use betti_coaching_calendar.Prelude.{
  ℕ, ◌+◌, ◌-◌, ◌≡◌, Bool, true, false, not, ◌||◌, ◌==◌, ltb, String, str_eq, Option, none, some,
  List, [], ◌∷◌, ◌++◌, find, any, keep, map, is_some, if◌then◌else◌,
}
use betti_coaching_calendar.Http.{Error, plain, conflict, prisma_error, Result, ok, err}
use betti_coaching_calendar.Action.{
  Action, pure, gets, find_or_throw, throw_when, modify, ◌>>=◌, ◌>>◌,
}
use betti_coaching_calendar.Schema.{AllowedOrigin}

-- `CACHE_TTL_MS`
abbrev pub cache_ttl_ms : ℕ
cache_ttl_ms = 60000

-- the table, which all instances share, and the fields of the service. The table is in the order of
-- `createdAt`.
pub record Origins : Type 0 where
  pub table : List AllowedOrigin
  -- `null` is `none`
  pub cache : Option (List String)
  pub cached_at : ℕ

pub record CreateAllowedOriginDto : Type 0 where
  pub origin : String
  pub label : Option String

-- `Set.has`
abbrev pub has : String → List String → Bool
has origin set = any (λ o. str_eq o origin) set

abbrev pub origins_of : List AllowedOrigin → List String
origins_of rows = map (λ o. o.origin) rows

abbrev pub set_table : List AllowedOrigin → Origins → Origins
set_table rows s = record s { table = rows }

abbrev pub drop_cache : Origins → Origins
drop_cache s = record s { cache = none }

unfoldable pub list : Action Origins (List AllowedOrigin)
list = gets (λ s. s.table)

-- `id` is the identifier that the database makes
unfoldable pub add : ℕ → CreateAllowedOriginDto → Action Origins AllowedOrigin
unfolding ◌>>=◌ find any
add id dto = do
  throw_when (λ s. is_some (find (λ o. str_eq o.origin dto.origin) s.table))
      (conflict (plain "That origin is already allowed"))
  let row : AllowedOrigin = record { id = id; origin = dto.origin; label = dto.label }
  throw_when (λ s. any (λ o. o.id == id) s.table) (prisma_error "P2002")
  modify (λ s. set_table (s.table ++ row ∷ []) s)
  modify drop_cache
  pure row

unfoldable pub remove : ℕ → Action Origins (Unit {0})
unfolding ◌>>=◌ find keep
remove id = do
  find_or_throw (λ s. find (λ o. o.id == id) s.table) (prisma_error "P2025")
  modify (λ s. set_table (keep (λ o. not (o.id == id)) s.table) s)
  modify drop_cache

-- the cache has to be read anew: `!this.cache || Date.now() - this.cachedAt > CACHE_TTL_MS`. The
-- difference is negative where the clock was set back, and 0 here; neither is above the limit.
abbrev pub is_stale : ℕ → Origins → Bool
is_stale now s = not (is_some s.cache) || ltb cache_ttl_ms (now - s.cached_at)

abbrev pub refresh : ℕ → Origins → Origins
refresh now s =
    if is_stale now s then record s { cache = some (origins_of s.table); cached_at = now } else s

abbrev pub cached_has : String → Option (List String) → Bool
cached_has origin none = false
cached_has origin (some set) = has origin set

unfoldable pub is_allowed : ℕ → String → Action Origins Bool
unfolding ◌>>=◌ any
is_allowed now origin = do modify (refresh now); gets (λ s. cached_has origin s.cache)
