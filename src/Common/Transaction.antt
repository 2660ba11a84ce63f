-- ===== src/Common/Transaction.antt =====
-- common/serializable-transaction.util.ts: a transaction that is tried again when Postgres could
-- not serialize it.
use betti_coaching_calendar.Prelude.{
  ℕ, zero, suc, ◌+◌, Bool, false, not, ◌||◌, ◌==◌, String, str_eq, if◌then◌else◌,
}
use betti_coaching_calendar.Http.{Error, plain, conflict, prisma_error, Result, ok, err}
use betti_coaching_calendar.Action.{Action}
use betti_coaching_calendar.Schema.{Db}
use betti_coaching_calendar.World.{Env, Attempt, commits, serialization_failure, breaks}

abbrev pub serialization_retry_attempts : ℕ
serialization_retry_attempts = 3

abbrev pub default_conflict_message : String
default_conflict_message =
    "Could not complete the request due to a conflicting change, please try again"

-- `error.code === 'P2034'`
abbrev pub is_serialization_failure : Error → Bool
is_serialization_failure (prisma_error code) = str_eq code "P2034"
is_serialization_failure _ = false

-- how one call of `prisma.$transaction` ends, with the database after it
pub data TxResult (A : Type 0) : Type 0 where
  committed : A → Db → TxResult A
  aborted : Error → Db → TxResult A

module _ {A : Type 0} where
  -- what `fn` threw undoes what it wrote
  abbrev pub commit : Db → Result A × Db → TxResult A
  commit start (ok a, db) = committed a db
  commit start (err e, db) = aborted e start

  abbrev pub finish : TxResult A → Result A × Db
  finish (committed a db) = (ok a, db)
  finish (aborted e db) = (err e, db)

-- `fn` gets what the plain client sees beside the transaction.
module _ {A : Type 0} (env : Env) (fn : Db → Action Db A) where
  abbrev pub transaction_on : ℕ → Attempt → Db → TxResult A
  transaction_on k commits start = commit start (fn (env.other_connection k start) start)
  transaction_on k serialization_failure start = aborted (prisma_error "P2034") start
  transaction_on k (breaks e) start = aborted e start

  -- `prisma.$transaction(fn, { isolationLevel: Serializable })`, the k-th time
  unfoldable pub transaction : ℕ → Db → TxResult A
  transaction k db = transaction_on k (env.attempt k) (env.before_attempt k db)

  -- the loop, from attempt `k` with `rounds` left
  unfoldable pub retry : ℕ → ℕ → Action Db A
  retry zero k db = (err (conflict (plain default_conflict_message)), db)
  retry (suc rounds) k db = elim (transaction k db) [
    | committed a db' ↦ (ok a, db')
    | aborted e db' ↦
        let again = retry rounds (k + 1) db' in
        if not (is_serialization_failure e) || k == serialization_retry_attempts
        then (err e, db')
        else again
  ]

  unfoldable pub run_serializable : Action Db A
  unfolding retry
  run_serializable = retry serialization_retry_attempts 1
