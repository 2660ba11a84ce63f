-- ===== src/AllowedOrigins/Staleness.antt =====
-- How old an answer of `isAllowed` can be.
use betti_coaching_calendar.Prelude.{
  ℕ, ◌+◌, ◌≤◌, ◌≡◌, refl, ap, String, none, some, List, [], ◌∷◌, In, here, there, Bool-cases,
  Option-cases, get_or, inl, inr, arith,
}
use betti_coaching_calendar.Http.{ok}
use betti_coaching_calendar.Action.{◌>>=◌}
use betti_coaching_calendar.Schema.{AllowedOrigin}
use betti_coaching_calendar.AllowedOrigins.{
  cache_ttl_ms, Origins, CreateAllowedOriginDto, has, origins_of, refresh, is_stale, add, remove,
  is_allowed,
}

-- What can happen: a request to this instance, or another instance's write to the table.
pub data Event : Type 0 where
  adds : ℕ → CreateAllowedOriginDto → Event
  removes : ℕ → Event
  asks : String → Event
  elsewhere : List AllowedOrigin → Event

-- the table at a clock reading
abbrev pub Snapshot : Type 0
Snapshot = ℕ × List String

unfoldable pub step : ℕ → Event → Origins → Origins
step now (adds id dto) s = (add id dto s).1
step now (removes id) s = (remove id s).1
step now (asks origin) s = (is_allowed now origin s).1
step now (elsewhere rows) s = record s { table = rows }

-- the state after a history, and the tables that there were before its events, latest first
unfoldable pub run : List (ℕ × Event) → Origins → List Snapshot → Origins × List Snapshot
run [] s seen = (s, seen)
run ((now, event) ∷ rest) s seen = run rest (step now event s) ((now, origins_of s.table) ∷ seen)

-- The cache is a table that there was when it was read.
abbrev pub IsCache : Origins → List Snapshot → Type 0
IsCache s seen = (set : List String) → s.cache ≡ some set → In (s.cached_at, set) seen

-- a step that reads nothing keeps the cache or drops it
record IsIdle (s s' : Origins) : Type 0 where
  cache : (set : List String) → s'.cache ≡ some set → s.cache ≡ some set
  cached_at : s'.cached_at ≡ s.cached_at

idle-IsCache :
    (s s' : Origins) (x : Snapshot) (seen : List Snapshot)
    → IsIdle s s'
    → IsCache s seen
    → IsCache s' (x ∷ seen)
idle-IsCache s s' x seen k h set e = there (rw k.cached_at (h set (k.cache set e)))

add-IsIdle : (id : ℕ) (dto : CreateAllowedOriginDto) (s : Origins) → IsIdle s (add id dto s).1
unfolding add ◌>>=◌
add-IsIdle id dto s = record { cache = λ set e. ground arith; cached_at = ground arith }

remove-IsIdle : (id : ℕ) (s : Origins) → IsIdle s (remove id s).1
unfolding remove ◌>>=◌
remove-IsIdle id s = record { cache = λ set e. ground arith; cached_at = ground arith }

refresh-IsCache :
    (now : ℕ) (s : Origins) (seen : List Snapshot)
    → IsCache s seen
    → IsCache (refresh now s) ((now, origins_of s.table) ∷ seen)
refresh-IsCache now s seen h set e = elim (Bool-cases (is_stale now s)) [
  | inl p ↦
      let t : (refresh now s).cached_at ≡ now = ground arith in
      let c : some (origins_of s.table) ≡ some set = ground arith in
      rw t (here (ap (λ o. (now, get_or o (origins_of s.table))) c))
  | inr p ↦
      let t : (refresh now s).cached_at ≡ s.cached_at = ground arith in
      rw t (there (h set (ground arith)))
]

step-IsCache :
    (now : ℕ) (event : Event) (s : Origins) (seen : List Snapshot)
    → IsCache s seen
    → IsCache (step now event s) ((now, origins_of s.table) ∷ seen)
unfolding step is_allowed ◌>>=◌
step-IsCache now (adds id dto) s seen h =
    idle-IsCache s (add id dto s).1 _ seen (add-IsIdle id dto s) h
step-IsCache now (removes id) s seen h =
    idle-IsCache s (remove id s).1 _ seen (remove-IsIdle id s) h
step-IsCache now (asks origin) s seen h = refresh-IsCache now s seen h
step-IsCache now (elsewhere rows) s seen h = λ set e. there (h set e)

run-IsCache :
    (history : List (ℕ × Event)) (s : Origins) (seen : List Snapshot)
    → IsCache s seen
    → IsCache (run history s seen).0 (run history s seen).1
unfolding run
run-IsCache [] s seen h = h
run-IsCache ((now, event) ∷ rest) s seen h =
    run-IsCache rest (step now event s) _ (step-IsCache now event s seen h)

recent :
    (s : Origins) (seen : List Snapshot)
    → IsCache s seen
    → (now : ℕ) (origin : String)
    → (snapshot : Snapshot) × In snapshot ((now, origins_of s.table) ∷ seen)
      × (now ≤ snapshot.0 + cache_ttl_ms)
      × ((is_allowed now origin s).0 ≡ ok (has origin snapshot.1))
unfolding is_allowed ◌>>=◌
recent s seen k now origin = elim (Option-cases (refresh now s).cache) [
  | inl e ↦ absurd (ground arith)
  | inr (set, e) ↦ (
    ((refresh now s).cached_at, set),
    refresh-IsCache now s seen k set e,
    ground arith,
    rw e refl,
  )
]

-- A server that starts without a cache and serves any history of requests, while other instances
-- write the table, answers whether an origin is allowed as one table has it: the table of now, or
-- one that it met before an event at most 60 seconds ago (where the clock is not set back).
pub is_allowed_recent :
    (history : List (ℕ × Event)) (table : List AllowedOrigin) (now : ℕ) (origin : String)
    → let start : Origins = record { table = table; cache = none; cached_at = 0 } in
      let (s, seen) = run history start [] in
      (snapshot : Snapshot) × In snapshot ((now, origins_of s.table) ∷ seen)
      × (now ≤ snapshot.0 + cache_ttl_ms)
      × ((is_allowed now origin s).0 ≡ ok (has origin snapshot.1))
unfolding is_allowed ◌>>=◌
is_allowed_recent history table now origin =
    let start : Origins = record { table = table; cache = none; cached_at = 0 } in
    let (s, seen) = run history start [] in
    recent s seen (run-IsCache history start [] (λ set e. absurd (ground arith))) now origin

-- After a write on this instance the next answer is that of the table.
pub is_allowed_fresh :
    (s : Origins) (id now : ℕ) (dto : CreateAllowedOriginDto) (row : AllowedOrigin) (t : Origins)
    → add id dto s ≡ (ok row, t)
    → (origin : String) → (is_allowed now origin t).0 ≡ ok (has origin (origins_of t.table))
unfolding add is_allowed ◌>>=◌
is_allowed_fresh s id now dto row t h origin = ground arith
