-- ===== src/EventTypes/Reorder.antt =====
-- Which orders `reorder` accepts, and what it does to the positions.
use betti_coaching_calendar.Prelude.{
  ℕ, suc, ◌+◌, ◌≤◌, ◌≡◌, ◌≢◌, ◌↔◌, refl, ap, ◌∙◌, Bool, true, false, ◌&&◌, ◌==◌, Option, none, some,
  List, [], ◌∷◌, length, keep, any, All, All-map, All-of_In, In, here, there, Pairwise, Bool-cases,
  inl, inr, if◌then◌else◌, update_where, map, arith,
}
use betti_coaching_calendar.Http.{Result, ok}
use betti_coaching_calendar.Action.{◌>>=◌}
use betti_coaching_calendar.Schema.{Db, Coach, EventType}
use betti_coaching_calendar.EventTypes.{includes, owned, set_positions, reorder}

-- no two services have one identifier
abbrev pub HasKeys : List EventType → Type 0
HasKeys es = Pairwise (λ a b. a.id ≢ b.id) es

-- no identifier twice
abbrev pub IsDistinct : List ℕ → Type 0
IsDistinct [] = Unit
IsDistinct (i ∷ ids) = (includes ids i ≡ false) × IsDistinct ids

-- the service is the coach's
abbrev own : ℕ → ℕ → EventType → Bool
own coach_id i e = (i == e.id) && (e.coach_id == coach_id)

abbrev mine : ℕ → List ℕ → EventType → Bool
mine coach_id ids e = includes ids e.id && (e.coach_id == coach_id)

unfoldable count : (EventType → Bool) → List EventType → ℕ
count p [] = 0
count p (e ∷ es) = let rest = count p es in if p e then suc rest else rest

length-keep : (p : EventType → Bool) (es : List EventType) → length (keep p es) ≡ count p es
unfolding keep count
length-keep p [] = refl
length-keep p (e ∷ es) = ground (arith, length-keep p es)

count-none :
    (p : EventType → Bool) (es : List EventType) → All (λ e. p e ≡ false) es → count p es ≡ 0
unfolding count
count-none p [] h = refl
count-none p (e ∷ es) h = ground (arith, count-none p es h.1)

-- an identifier names at most one service
count-own : (coach_id i : ℕ) (es : List EventType) → HasKeys es → count (own coach_id i) es ≤ 1
unfolding count
count-own coach_id i [] h = ground arith
count-own coach_id i (e ∷ es) (h, hs) = elim (Bool-cases (own coach_id i e)) [
  | inl p ↦
      let none_else : count (own coach_id i) es ≡ 0 =
        count-none (own coach_id i) es
          (All-map (λ b. own coach_id i b ≡ false) es (λ b m k. ground arith) h) in
      ground arith
  | inr p ↦ rw p (count-own coach_id i es hs)
]

-- one more identifier adds the services that it names, unless it is there already
count-cons :
    (coach_id i : ℕ) (ids : List ℕ) (es : List EventType)
    → count (mine coach_id (i ∷ ids)) es ≡ (
        if includes ids i
        then count (mine coach_id ids) es
        else count (mine coach_id ids) es + count (own coach_id i) es)
unfolding count any
count-cons coach_id i ids [] = ground arith
count-cons coach_id i ids (e ∷ es) = elim (Bool-cases (i == e.id)) [
  | inl q ↦
      let same : includes ids e.id ≡ includes ids i = ap (includes ids) (ground arith) in
      ground (arith, count-cons coach_id i ids es, same)
  | inr q ↦ ground (arith, count-cons coach_id i ids es)
]

count-mine :
    (coach_id : ℕ) (ids : List ℕ) (es : List EventType)
    → HasKeys es
    → count (mine coach_id ids) es ≤ length ids
unfolding any
count-mine coach_id [] es h =
    let none_named = count-none (mine coach_id []) es (All-of_In _ es (λ e m. refl)) in
    ground (arith, none_named)
count-mine coach_id (i ∷ ids) es h =
    ground
      (arith, count-cons coach_id i ids es, count-own coach_id i es h, count-mine coach_id ids es h)

count-hit :
    (p : EventType → Bool) (e : EventType) (es : List EventType)
    → In e es
    → p e ≡ true
    → 1 ≤ count p es
unfolding count
count-hit p e [] m h = elim m [ ]
count-hit p e (x ∷ es) (here q) h = let same : p x ≡ p e = ap p q in ground (arith, same)
count-hit p e (x ∷ es) (there m) h = ground (arith, count-hit p e es m h)

count-found :
    (p : EventType → Bool) (es : List EventType)
    → 1 ≤ count p es
    → (e : EventType) × In e es × (p e ≡ true)
unfolding count
count-found p [] h = absurd (ground arith)
count-found p (x ∷ es) h = elim (Bool-cases (p x)) [
  | inl e ↦ (x, here refl, e)
  | inr e ↦ let (y, m, k) = count-found p es (ground arith) in (y, there m, k)
]

-- the coach has a service of the identifier
abbrev pub IsOwned : ℕ → List EventType → ℕ → Type 0
IsOwned coach_id es i = (e : EventType) × In e es × (e.id ≡ i) × (e.coach_id ≡ coach_id)

count-exact :
    (coach_id : ℕ) (ids : List ℕ) (es : List EventType)
    → HasKeys es
    → count (mine coach_id ids) es ≡ length ids
    → IsDistinct ids × All (IsOwned coach_id es) ids
count-exact coach_id [] es h k = (tt, tt)
count-exact coach_id (i ∷ ids) es h k =
    let step = count-cons coach_id i ids es in
    let one = count-own coach_id i es h in
    let few = count-mine coach_id ids es h in
    elim (Bool-cases (includes ids i)) [
      | inl e ↦ absurd (ground (arith, step, few))
      | inr e ↦
          let (x, m, q) = count-found (own coach_id i) es (ground (arith, step, few)) in
          let (distinct, owned) = count-exact coach_id ids es h (ground (arith, step, one, few)) in
          ((e, distinct), ((x, m, ground arith, ground arith), owned))
    ]

exact-count :
    (coach_id : ℕ) (ids : List ℕ) (es : List EventType)
    → HasKeys es
    → IsDistinct ids
    → All (IsOwned coach_id es) ids
    → count (mine coach_id ids) es ≡ length ids
exact-count coach_id [] es h d o = ground (arith, count-mine coach_id [] es h)
exact-count coach_id (i ∷ ids) es h (e, d) ((x, m, q, r), o) =
    let step = count-cons coach_id i ids es in
    let one = count-own coach_id i es h in
    let hit = count-hit (own coach_id i) x es m (ground arith) in
    let rest = exact-count coach_id ids es h d o in ground (arith, step, one, hit, rest)

-- A new order is accepted exactly when it lists no identifier twice and each identifier is of a
-- service of the coach, given that the services have their own identifiers.
pub reorder_iff :
    (coach : Coach) (ids : List ℕ) (db : Db)
    → HasKeys db.event_types
    → ((reorder coach ids db).0 ≡ ok tt)
      ↔ (IsDistinct ids × All (IsOwned coach.id db.event_types) ids)
unfolding reorder owned ◌>>=◌
reorder_iff coach ids db h =
    let n = length-keep (mine coach.id ids) db.event_types in
    (
      λ k. count-exact coach.id ids db.event_types h (ground (arith, n)),
      λ (d, o). (let e = exact-count coach.id ids db.event_types h d o in ground (arith, n, e)),
    )

-- the place of an identifier in a list that starts with place k
unfoldable pub index_of : ℕ → List ℕ → ℕ → Option ℕ
index_of k [] i = none
index_of k (j ∷ ids) i = let rest = index_of (suc k) ids i in if j == i then some k else rest

abbrev pub at_place : Option ℕ → EventType → EventType
at_place none e = e
at_place (some k) e = record e { position = k }

index_of-none : (ids : List ℕ) (i : ℕ) → includes ids i ≡ false → (k : ℕ) → index_of k ids i ≡ none
unfolding index_of any
index_of-none [] i h k = refl
index_of-none (j ∷ ids) i h k = ground (arith, index_of-none ids i (ground arith) (suc k))

map-same : (es : List EventType) → es ≡ map (λ e. at_place none e) es
map-same [] = refl
map-same (e ∷ es) = ap (λ rest. e ∷ rest) (map-same es)

map-placed :
    (i k : ℕ) (ids : List ℕ) (es : List EventType)
    → includes ids i ≡ false
    → map
        (λ e. at_place (index_of (suc k) ids e.id) e)
        (update_where (λ e. e.id == i) (λ e. record e { position = k }) es)
      ≡ map (λ e. at_place (index_of k (i ∷ ids) e.id) e) es
unfolding index_of update_where
map-placed i k ids [] d = refl
map-placed i k ids (e ∷ es) d = elim (Bool-cases (e.id == i)) [
  | inl q ↦
      let same : e.id ≡ i = ground arith in
      let new : index_of (suc k) ids e.id ≡ none =
        ap (index_of (suc k) ids) same ∙ index_of-none ids i d (suc k) in
      let back : (i == e.id) ≡ true = ground arith in
      rw (q, new, back) (ap (λ rest. record e { position = k } ∷ rest) (map-placed i k ids es d))
  | inr q ↦
      let back : (i == e.id) ≡ false = ground arith in
      rw (q, back)
        (ap (λ rest. at_place (index_of (suc k) ids e.id) e ∷ rest) (map-placed i k ids es d))
]

set_positions-map :
    (ids : List ℕ) (k : ℕ) (es : List EventType)
    → IsDistinct ids
    → set_positions k ids es ≡ map (λ e. at_place (index_of k ids e.id) e) es
unfolding set_positions index_of
set_positions-map [] k es d = map-same es
set_positions-map (i ∷ ids) k es (e, d) =
    set_positions-map ids (suc k)
      (update_where (λ e. e.id == i) (λ e. record e { position = k }) es) d
    ∙ map-placed i k ids es e

-- An accepted order gives each service that it lists its place in the list as position, from 0,
-- and leaves all other services, and the rest of the database, as they are.
pub reorder_positions :
    (coach : Coach) (ids : List ℕ) (db db' : Db)
    → HasKeys db.event_types
    → reorder coach ids db ≡ (ok tt, db')
    → db' ≡ record db { event_types = map (λ e. at_place (index_of 0 ids e.id) e) db.event_types }
unfolding reorder ◌>>=◌
reorder_positions coach ids db db' h k =
    let (d, _) = (reorder_iff coach ids db h).0 (ap (λ (r : Result (Unit {0}) × Db). r.0) k) in
    let e = set_positions-map ids 0 db.event_types d in rw (← e) (ground arith)
