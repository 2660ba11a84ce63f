-- ===== src/Google.antt =====
-- google/: the calendar of a coach. The Google API is not part of the code: a call is recorded,
-- and the answers that matter come from the environment.
pub mod Connect
pub mod Connected
use betti_coaching_calendar.Prelude.{ℕ, ◌==◌, String, [], ◌∷◌, ◌++◌, find}
use betti_coaching_calendar.Http.{plain, service_unavailable}
use betti_coaching_calendar.Action.{Action, lift, find_or_throw, modify, ◌>>=◌, ◌>>◌}
use betti_coaching_calendar.World.{World, Env, CalendarCall, delete_event}

abbrev pub record_call : CalendarCall → World → World
record_call call w = record w { calls = w.calls ++ call ∷ [] }

module _ (env : Env) where
  -- `GoogleOAuthService.getAuthenticatedClient`: the client is its refresh token
  unfoldable pub get_authenticated_client : ℕ → Action World String
  get_authenticated_client coach_id = do
    integration ←
        find_or_throw (λ w. find (λ i. i.coach_id == coach_id) w.db.integrations)
          (service_unavailable (plain "Google Calendar is not connected yet"))
    lift (env.decrypt integration.refresh_token_encrypted)

  -- `GoogleCalendarService.deleteEvent`: only what `events.delete` throws is swallowed
  unfoldable pub delete_calendar_event : ℕ → String → Action World (Unit {0})
  delete_calendar_event coach_id event_id = do
    get_authenticated_client coach_id
    modify (record_call (delete_event coach_id event_id))
