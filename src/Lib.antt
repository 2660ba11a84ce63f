-- ===== src/Lib.antt =====
-- The backend of the coaching calendar: coaches publish services and hours, clients book.
--
-- The program is a NestJS server on Postgres (Prisma). A controller passes a request to a service;
-- the services share the database, put notification jobs into pg-boss, and call Google Calendar.
-- BookingsService asks AvailabilityService whether a time lies in the coach's schedule, and reserves
-- it in a serializable transaction; SlotsService lists the times that a client may choose from;
-- SettingsService gives the time zone and the notice window; NotificationJobsService works on the
-- queue and makes the Meet links; TokenService, the two guards and AuthService decide who a request
-- comes from, and `common/ownership.util.ts` which rows it may touch.
--
-- How it is modelled:
-- - A service method is an `Action` (Action.antt): a function from the state to a result, or the
--   exception that it throws, and the state after it. What was written before an exception stays.
--   Prelude.antt has the shared library names, tests and lemmas, Http.antt the exceptions.
-- - Schema.antt has the tables of prisma/schema.prisma. Identifiers are numbers, 0 standing for the
--   empty text; instants are milliseconds, dates are days. The unique keys, foreign keys and
--   missing rows that the code can meet are errors of the writes.
-- - World.antt: the database, the queue, the calendar calls and the emails, and what comes from
--   outside in a request (`Env`): the clock, new identifiers, the outcome of each attempt at a
--   transaction, and what other requests commit before it.
-- - Common/Transaction.antt: src/common/serializable-transaction.util.ts. The loop recurses on the
--   three attempts that it has. Common/Ownership.antt: src/common/ownership.util.ts.
--   Common/Luxon.antt: the package luxon, as parameters. Common/ExceptionFilter.antt:
--   src/common/prisma-exception.filter.ts. Common/Strip.antt:
--   src/common/strip-password-hash.interceptor.ts, with a body as JSON and its dates.
-- - Availability/Ranges.antt: src/availability/availability.service.ts; Weekly.antt and
--   Overrides.antt the services of the two tables; Requests.antt the controller.
-- - Slots.antt: src/slots/slots.service.ts. The innermost loop recurses on `suc endMinute` rounds,
--   enough since the duration of a service is positive; a service without one is not covered.
-- - Bookings/Slot.antt, Bookings/Service.antt and Bookings/Requests.antt:
--   src/bookings/bookings.service.ts and its controller. Google.antt: the parts of src/google that
--   it calls; Google/Connect.antt: the OAuth callback, the status and the controller.
--   Common/Crypto.antt: src/common/crypto.util.ts, with node:crypto as a parameter.
-- - Settings.antt: `get` of src/settings/settings.service.ts; Settings/Update.antt: `update`, the
--   validation of its body and the controller; Settings/Palette.antt:
--   src/settings/email-brand-palette.util.ts. Common/Json.antt: the JSON values that they look into.
-- - Jobs.antt: src/jobs/notification-jobs.service.ts and `createMeetEvent` of
--   src/google/google-calendar.service.ts. A job has the first attempt and three retries, as the
--   queue is configured; what Google and the providers answer in each is a parameter.
-- - Notifications/Service.antt: src/notifications/notifications.service.ts; Content.antt:
--   email-content.builder.ts beside it; Email.antt: email.service.ts; Formats.antt: the price, the
--   calendar link and the calendar file; Mail.antt: the messages. In a message its properties stand
--   for the HTML; Notifications/Template: the tree of elements that
--   src/notifications/templates/BookingEmail.tsx makes of them, its styles and its style sheet.
--   I18n.antt: src/i18n/i18n.service.ts.
-- - Auth/Token.antt, Auth/Guard.antt, Auth/Service.antt: src/auth, with jsonwebtoken and bcryptjs as
--   parameters that have their documented laws. Coaches.antt: src/coaches/coaches.service.ts.
--   Auth/Letters.antt: src/auth/password-reset-email.service.ts and
--   src/coaches/coach-invite-email.service.ts.
-- - EventTypes.antt: src/event-types/event-types.service.ts.
-- - AllowedOrigins.antt: src/allowed-origins/allowed-origins.service.ts, one instance of the server
--   with its cache; other instances write the table between its requests. AllowedOrigins/Cors.antt:
--   the callback of src/main.ts. Common/Origin.antt: src/common/origin.util.ts, and
--   Auth/Forgotten.antt the request that uses it. Common/Html.antt: src/common/html.util.ts.
-- - Config.antt: src/config, and the connections of src/prisma/prisma.service.ts,
--   src/jobs/pgboss.service.ts and prisma7.config.ts.
--
-- Not modelled: the HTML that react-email makes of a tree of elements, the wiring of the modules,
-- logging, throttling, and the validation of bodies other than those of the availability tables and
-- of the settings. A message of an exception is its key with its variables.
pub mod Prelude
pub mod Http
pub mod Action
pub mod Schema
pub mod World
pub mod Settings
pub mod Google
pub mod Common
pub mod Availability
pub mod Bookings
pub mod Slots
pub mod AllowedOrigins
pub mod EventTypes
pub mod I18n
pub mod Config
pub mod Notifications
pub mod Jobs
pub mod Tests
pub mod Auth
pub mod Coaches
