-- ===== src/Common/Retries.antt =====
-- Which attempt of a serializable transaction decides, and what a failed one leaves.
use betti_coaching_calendar.Prelude.{
  ◌∙◌, subst, ℕ, zero, suc, ◌+◌, ◌≤◌, ◌<◌, ◌≡◌, refl, true, false, not, ◌||◌, ◌==◌, Bool-cases, inl,
  inr, ◌⊎◌, arith,
}
use betti_coaching_calendar.Http.{Error, Result, ok, err}
use betti_coaching_calendar.Action.{Action}
use betti_coaching_calendar.Schema.{Db}
use betti_coaching_calendar.World.{Env, Attempt, commits, serialization_failure, breaks}
use betti_coaching_calendar.Common.Transaction.{
  is_serialization_failure, TxResult, committed, aborted, commit, finish, transaction,
  transaction_on, retry, run_serializable,
}

module _ {A : Type 0} (env : Env) (fn : Db → Action Db A) where
  -- a run comes to what one of the three attempts came to
  abbrev IsDecided : Result A × Db → Type 0
  IsDecided run =
      (j : ℕ) × (start : Db) × (1 ≤ j) × (j ≤ 3) × (run ≡ finish (transaction env fn j start))

  retry-step :
      (rounds k : ℕ) (db : Db) (r : TxResult A)
      → transaction env fn k db ≡ r
      → 1 ≤ k
      → k ≤ 3
      → ((d : Db) → k + 1 ≤ 3 → IsDecided (retry env fn rounds (k + 1) d))
      → IsDecided (retry env fn (suc rounds) k db)
  unfolding retry
  retry-step rounds k db (committed a db') h p q ih = (k, db, p, q, rw (h, retry))
  retry-step rounds k db (aborted e db') h p q ih =
      elim (Bool-cases (not (is_serialization_failure e) || k == 3)) [
        | inl last ↦ (k, db, p, q, rw (h, retry, last))
        | inr more ↦ rw (h, retry, more) (ih db' (ground arith))
      ]

  retry-decides :
      (rounds k : ℕ) (db : Db)
      → rounds + k ≡ 4
      → 1 ≤ k
      → k ≤ 3
      → IsDecided (retry env fn rounds k db)
  retry-decides zero k db e p q = absurd (omega arith)
  retry-decides (suc rounds) k db e p q =
      retry-step rounds k db (transaction env fn k db) refl p q
        (λ d lt. retry-decides rounds (k + 1) d (omega arith) (omega arith) lt)

-- A run always ends with what one of the attempts 1, 2 and 3 came to: its value, or the very error
-- that it was aborted with. So the loop is never left by its end, and the 409 that stands behind
-- it, with the message about a conflicting change, is never thrown by it.
pub run_serializable_decided :
    {A : Type 0} (env : Env) (fn : Db → Action Db A) (db : Db)
    → (j : ℕ) × (start : Db) × (1 ≤ j)
      × (j ≤ 3)
      × (run_serializable env fn db ≡ finish (transaction env fn j start))
unfolding run_serializable
run_serializable_decided env fn db =
    retry-decides env fn 3 1 db (omega arith) (omega arith) (omega arith)

module _ {A : Type 0} (env : Env) (fn : Db → Action Db A) where
  -- the database before attempt `k`, when the attempts before it could not be serialized
  abbrev pub db_before : ℕ → Db → Db
  db_before zero db = db
  db_before (suc k) db = env.before_attempt (suc k) (db_before k db)

  -- The result of attempt `j` stands: it did not fail to serialize, or it was the last.
  abbrev pub Stands : ℕ → TxResult A → Type 0
  Stands j (committed a db) = Unit
  Stands j (aborted e db) = (is_serialization_failure e ≡ false) ⊎ (j ≡ 3)

  retry-Stands :
      (rounds k : ℕ) (db : Db) (r : TxResult A)
      → transaction env fn k db ≡ r
      → Stands k r
      → retry env fn (suc rounds) k db ≡ finish r
  unfolding retry
  retry-Stands rounds k db (committed a db') h s = rw (h, retry)
  retry-Stands rounds k db (aborted e db') h s =
      let last : (not (is_serialization_failure e) || k == 3) ≡ true = ground arith in
      rw (h, retry, last)

  retry-again :
      (rounds k : ℕ) (db : Db)
      → k < 3
      → env.attempt k ≡ serialization_failure
      → retry env fn (suc rounds) k db ≡ retry env fn rounds (k + 1) (env.before_attempt k db)
  unfolding retry transaction
  retry-again rounds k db lt f = let more : (k == 3) ≡ false = ground arith in rw (f, retry, more)

-- While attempts fail to serialize, the next of the three is made, on the database that the others
-- have left: attempt j is made exactly so after j - 1 such failures, and where it commits, throws
-- another error or is the third, its result is the result of the whole run.
pub run_serializable-retries :
    {A : Type 0} (env : Env) (fn : Db → Action Db A) (db : Db) (j : ℕ)
    → j < 3
    → ((k : ℕ) → 1 ≤ k → k ≤ j → env.attempt k ≡ serialization_failure)
    → Stands env fn (suc j) (transaction env fn (suc j) (db_before env fn j db))
    → run_serializable env fn db ≡ finish (transaction env fn (suc j) (db_before env fn j db))
unfolding run_serializable
run_serializable-retries env fn db zero lt failed s = retry-Stands env fn 2 1 db _ refl s
run_serializable-retries env fn db (suc zero) lt failed s =
    retry-again env fn 2 1 db (omega arith) (failed 1 (omega arith) (omega arith))
    ∙ retry-Stands env fn 1 2 (env.before_attempt 1 db) _ refl s
run_serializable-retries env fn db (suc (suc zero)) lt failed s =
    retry-again env fn 2 1 db (omega arith) (failed 1 (omega arith) (omega arith))
    ∙ retry-again env fn 1 2 (env.before_attempt 1 db) (omega arith)
        (failed 2 (omega arith) (omega arith))
    ∙ retry-Stands env fn 0 3 (env.before_attempt 2 (env.before_attempt 1 db)) _ refl s
run_serializable-retries env fn db (suc (suc (suc j))) lt failed s = absurd (omega arith)

module _ {A : Type 0} (P : Db → Type 0) (env : Env) (fn : Db → Action Db A)
    (others : (k : ℕ) (db : Db) → P db → P (env.before_attempt k db))
    (own : (seen db db' : Db) (a : A) → P db → fn seen db ≡ (ok a, db') → P db') where
  commit-keeps :
      (seen start : Db) (r : Result A × Db)
      → fn seen start ≡ r
      → P start
      → P (finish (commit start r)).1
  commit-keeps seen start (ok a, db') e h = own seen start db' a h e
  commit-keeps seen start (err x, db') e h = h

  transaction_on-keeps :
      (k : ℕ) (t : Attempt) (start : Db) → P start → P (finish (transaction_on env fn k t start)).1
  transaction_on-keeps k commits start h =
      commit-keeps (env.other_connection k start) start _ refl h
  transaction_on-keeps k serialization_failure start h = h
  transaction_on-keeps k (breaks e) start h = h

  step-keeps :
      (rounds k : ℕ) (db : Db) (r : TxResult A)
      → transaction env fn k db ≡ r
      → P (finish r).1
      → ((d : Db) → P d → P (retry env fn rounds (k + 1) d).1)
      → P (retry env fn (suc rounds) k db).1
  unfolding retry
  step-keeps rounds k db (committed a db') h p ih = rw (h, retry) p
  step-keeps rounds k db (aborted e db') h p ih =
      elim (Bool-cases (not (is_serialization_failure e) || k == 3)) [
        | inl last ↦ rw (h, retry, last) p
        | inr more ↦ rw (h, retry, more) (ih db' p)
      ]

  retry-keeps : (rounds k : ℕ) (db : Db) → P db → P (retry env fn rounds k db).1
  unfolding retry transaction
  retry-keeps zero k db h = h
  retry-keeps (suc rounds) k db h =
      step-keeps rounds k db (transaction env fn k db) refl
        (transaction_on-keeps k (env.attempt k) (env.before_attempt k db) (others k db h))
        (λ d p. retry-keeps rounds (k + 1) d p)

  -- What the others' commits and a successful `fn` keep of the database, the whole run keeps,
  -- however it ends.
  pub run_serializable-keeps : (db : Db) → P db → P (run_serializable env fn db).1
  unfolding run_serializable
  run_serializable-keeps db h = retry-keeps 3 1 db h

-- the database that the others leave for attempt `j`, when the attempts before it left nothing
abbrev pub others_left : Env → ℕ → Db → Db
others_left env zero db = db
others_left env (suc j) db = env.before_attempt (suc j) (others_left env j db)

-- What a transaction that commits sees: its own database, which is the one that was read before with
-- what the others committed before each attempt, and what the plain client reads at that time.
pub record IsSnapshot (env : Env) (read seen start : Db) : Type 0 where
  pub attempt : ℕ
  pub first : 1 ≤ attempt
  pub last : attempt ≤ 3
  pub own : start ≡ others_left env attempt read
  pub plain : seen ≡ env.other_connection attempt start

module _ {A : Type 0} (env : Env) (fn : Db → Action Db A) where
  -- how an attempt can commit, and what an aborted one leaves
  commit-cases :
      (start : Db) (r : Result A × Db)
      → ((a : A) (d : Db) → commit start r ≡ committed a d → r ≡ (ok a, d))
        × ((e : Error) (d : Db) → commit start r ≡ aborted e d → d ≡ start)
  commit-cases start (ok x, d') = (λ a d h. cc, λ e d h. cc)
  commit-cases start (err x, d') = (λ a d h. cc, λ e d h. cc)

  on-cases :
      (k : ℕ) (t : Attempt) (start : Db)
      → ((a : A) (d : Db)
          → transaction_on env fn k t start ≡ committed a d
          → fn (env.other_connection k start) start ≡ (ok a, d))
        × ((e : Error) (d : Db) → transaction_on env fn k t start ≡ aborted e d → d ≡ start)
  on-cases k commits start = commit-cases start (fn (env.other_connection k start) start)
  on-cases k serialization_failure start = (λ a d h. cc, λ e d h. cc)
  on-cases k (breaks x) start = (λ a d h. cc, λ e d h. cc)

  transaction-cases :
      (k : ℕ) (db : Db)
      → ((a : A) (d : Db)
          → transaction env fn k db ≡ committed a d
          → fn (env.other_connection k (env.before_attempt k db)) (env.before_attempt k db)
            ≡ (ok a, d))
        × ((e : Error) (d : Db)
            → transaction env fn k db ≡ aborted e d
            → d ≡ env.before_attempt k db)
  unfolding transaction
  transaction-cases k db = on-cases k (env.attempt k) (env.before_attempt k db)

  -- a run from attempt `m + 1` on that commits
  abbrev CommitsFrom : ℕ → Db → A → Db → Type 0
  CommitsFrom m read a db' =
      (j : ℕ) × (suc m ≤ j)
      × (j ≤ 3)
      × (fn (env.other_connection j (others_left env j read)) (others_left env j read)
          ≡ (ok a, db'))

  step-ok :
      (rounds m : ℕ) (read db' : Db) (a : A) (r : TxResult A)
      → transaction env fn (suc m) (others_left env m read) ≡ r
      → suc m ≤ 3
      → (retry env fn rounds (suc m + 1) (others_left env (suc m) read) ≡ (ok a, db')
          → CommitsFrom (suc m) read a db')
      → retry env fn (suc rounds) (suc m) (others_left env m read) ≡ (ok a, db')
      → CommitsFrom m read a db'
  unfolding retry
  step-ok rounds m read db' a (committed x d) e b ih h =
      let (own, _) = transaction-cases (suc m) (others_left env m read) in
      let left : (ok x, d) ≡ (ok a, db') = rw (e, retry) at h in
      (suc m, omega arith, b, own x d e ∙ left)
  step-ok rounds m read db' a (aborted x d) e b ih h =
      let (_, back) = transaction-cases (suc m) (others_left env m read) in
      let same = back x d e in
      let h' = rw (e, retry) at h in
      elim (Bool-cases (not (is_serialization_failure x) || suc m == 3)) [
        | inl last ↦ absurd (let h2 = rw last at h' in cc)
        | inr more ↦ let (j, p, q, w) = ih (rw (more, same) at h') in (j, omega arith, q, w)
      ]

  retry-ok :
      (rounds m : ℕ) (read db' : Db) (a : A)
      → rounds + m ≡ 3
      → retry env fn rounds (suc m) (others_left env m read) ≡ (ok a, db')
      → CommitsFrom m read a db'
  unfolding retry
  retry-ok zero m read db' a e h = cc
  retry-ok (suc rounds) m read db' a e h =
      step-ok rounds m read db' a (transaction env fn (suc m) (others_left env m read)) refl
        (omega arith)
        (λ k. retry-ok rounds (suc m) read db' a (omega arith) (
          subst (λ n. retry env fn rounds n (others_left env (suc m) read) ≡ (ok a, db'))
            (omega arith) k))
        h

-- A successful run: `fn` succeeded in one of the three attempts, on the database that was read
-- before with what the others had committed by then, and what it left is what the run leaves.
pub run_serializable-ok :
    {A : Type 0} (env : Env) (fn : Db → Action Db A) (db db' : Db) (a : A)
    → run_serializable env fn db ≡ (ok a, db')
    → (seen start : Db) × IsSnapshot env db seen start × (fn seen start ≡ (ok a, db'))
unfolding run_serializable
run_serializable-ok env fn db db' a h =
    let (j, p, q, wrote) = retry-ok env fn 3 0 db db' a refl h in
    (
      env.other_connection j (others_left env j db),
      others_left env j db,
      record { attempt = j; first = p; last = q; own = refl; plain = refl },
      wrote,
    )
