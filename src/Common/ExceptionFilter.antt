-- ===== src/Common/ExceptionFilter.antt =====
-- common/prisma-exception.filter.ts: what becomes of an error that a handler throws.
use betti_coaching_calendar.Prelude.{ℕ, str_eq, if◌then◌else◌}
use betti_coaching_calendar.Http.{
  Error, plain, bad_request, unauthorized, forbidden, not_found, conflict, service_unavailable,
  prisma_error, failure,
}

-- `catch`: any error but P2002 is thrown on
unfoldable pub catch : Error → Error
catch (prisma_error code) =
    if str_eq code "P2002"
    then conflict (plain "A record with that value already exists")
    else prisma_error code
catch e = e

-- the status that Nest answers an error with
abbrev pub status_of : Error → ℕ
status_of (bad_request m) = 400
status_of (unauthorized m) = 401
status_of (forbidden m) = 403
status_of (not_found m) = 404
status_of (conflict m) = 409
status_of (service_unavailable m) = 503
status_of (prisma_error code) = 500
status_of (failure text) = 500
