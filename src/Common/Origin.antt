-- ===== src/Common/Origin.antt =====
-- common/origin.util.ts: where a request comes from.
use betti_coaching_calendar.Prelude.{
  Bool, false, any, String, str_eq, Option, none, some, List, [], ◌∷◌, if◌then◌else◌,
}
use betti_coaching_calendar.Notifications.Formats.{has_text}

-- the parts of a URL that the code reads
pub record Url : Type 0 where
  pub hostname : String
  pub origin : String

abbrev pub local_hostnames : List String
local_hostnames = "localhost" ∷ "127.0.0.1" ∷ "[::1]" ∷ "::1" ∷ []

-- with the constructor `URL`, which throws where it answers `none`
module _ (parse_url : String → Option Url) where
  abbrev is_local : Option Url → Bool
  is_local none = false
  is_local (some url) = any (str_eq url.hostname) local_hostnames

  unfoldable pub is_localhost_origin : String → Bool
  unfolding any
  is_localhost_origin origin = is_local (parse_url origin)

  abbrev origin_of : Option Url → Option String
  origin_of none = none
  origin_of (some url) = some url.origin

  abbrev from_referer : Option String → Option String
  from_referer none = none
  from_referer (some referer) = if str_eq referer "" then none else origin_of (parse_url referer)

  -- the headers `Origin` and `Referer`
  unfoldable pub resolve_request_origin : Option String → Option String → Option String
  resolve_request_origin origin_header referer_header =
      if has_text origin_header then origin_header else from_referer referer_header
