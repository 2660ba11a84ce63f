-- ===== src/AllowedOrigins/Cors.antt =====
-- The callback of `enableCors` in main.ts: which sites a browser lets read the answers.
use betti_coaching_calendar.Prelude.{
  ℕ, ◌+◌, ◌≤◌, ◌≡◌, inl, inr, refl, Bool, true, false, not, ◌||◌, String, str_eq, Option, none,
  some, List, [], ◌∷◌, In, if◌then◌else◌, Bool-cases,
}
use betti_coaching_calendar.Http.{ok}
use betti_coaching_calendar.Action.{Action, pure}
use betti_coaching_calendar.Schema.{AllowedOrigin}
use betti_coaching_calendar.Common.Origin.{Url, is_localhost_origin}
use betti_coaching_calendar.Notifications.Formats.{has_text}
use betti_coaching_calendar.AllowedOrigins.{Origins, cache_ttl_ms, has, origins_of, is_allowed}
use betti_coaching_calendar.AllowedOrigins.Staleness.{Event, Snapshot, run, is_allowed_recent}

module _ (parse_url : String → Option Url) where
  abbrev is_local : Option String → Bool
  is_local none = false
  is_local (some origin) = is_localhost_origin parse_url origin

  abbrev check : ℕ → Option String → Action Origins Bool
  check now none = pure true
  check now (some origin) = is_allowed now origin

  unfoldable pub allows : ℕ → Option String → Action Origins Bool
  unfolding pure is_localhost_origin
  allows now origin =
      if not (has_text origin) || is_local origin then pure true else check now origin

  -- A server that starts without a cache and serves any history of requests, while other instances
  -- write the table: the callback lets an origin in exactly if it is a local one, or is in one table,
  -- that of now or one that the server met at most 60 seconds ago; a request without an origin is
  -- always let in.
  pub allows_recent :
      (history : List (ℕ × Event)) (table : List AllowedOrigin) (now : ℕ) (origin : String)
      → str_eq origin "" ≡ false
      → let start : Origins = record { table = table; cache = none; cached_at = 0 } in
        let (s, seen) = run history start [] in
        ((allows now none s).0 ≡ ok true)
        × ((snapshot : Snapshot) × In snapshot ((now, origins_of s.table) ∷ seen)
            × (now ≤ snapshot.0 + cache_ttl_ms)
            × ((allows now (some origin) s).0
                ≡ ok (is_localhost_origin parse_url origin || has origin snapshot.1)))
  unfolding allows
  allows_recent history table now origin filled =
      let (snapshot, seen, recent, answer) = is_allowed_recent history table now origin in
      (
        refl,
        (
          snapshot,
          seen,
          recent,
          elim (Bool-cases (is_localhost_origin parse_url origin)) [
            | inl l ↦ rw (filled, l) refl
            | inr l ↦ rw (filled, l) answer
          ],
        ),
      )
