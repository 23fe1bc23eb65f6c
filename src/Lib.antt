-- ===== src/Lib.antt =====
-- Callnow is a telephony application: users log in, hold telephone numbers, send messages, make
-- calls and run campaigns of automatic calls. This library models the core of its NestJS backend
-- and proves what the parts promise each other.
--
-- The parts and the files that model them:
--
--   Base      what all parts share: Boolean tests, a database table as a list of rows with the
--             queries that Prisma offers (Base/Rows), rows told apart by a key (Base/Keys), and the
--             request handler as a function of its store (Base/Handler).
--   Plans     plans and subscriptions (backend/prisma/schema.prisma).
--   Auth      backend/src/auth/auth.service.ts with its guards. Tokens has issueTokens, logout and
--             refresh; Accounts register, verifyEmail, login and googleLogin; Otp the codes by
--             telephone; Password forgotPassword and resetPassword; TwoFactor enable2fa and verify2fa;
--             Guards what stands before a route. The other files are proofs and examples.
--   Numbers   backend/src/numbers/numbers.service.ts, with the cache of owners in Redis, and
--             backend/src/jobs/number-grace-period.job.ts.
--   Dialer    backend/src/dialer: CsvValidator (csv-validator.ts), Campaigns, Control, Export
--             and Dnc (dialer.service.ts, internal/dialer-callback.controller.ts), and Text, the
--             text functions that these use.
--   Messaging backend/src/messaging: Service (messaging.service.ts) and Webhook
--             (webhooks/sms-webhook.controller.ts).
--   Calling   backend/src/calling: Service (calling.service.ts), and Voice and Status
--             (webhooks/voice-webhook.controller.ts).
--   Billing   backend/src/billing: usage-tracker.service.ts and upgradePlan (Billing), the rest of
--             billing.service.ts (Account) and webhooks/stripe-webhook.controller.ts (Stripe).
--   Jobs      backend/src/jobs: Scheduled (scheduled-message.job.ts), Retention
--             (token-cleanup.job.ts, data-retention.job.ts) and Invoices
--             (invoice-generation.job.ts, usage-alert.job.ts).
--   Browser   the way of an event to the screen: Gateways (backend/src/messaging/messaging.gateway.ts,
--             backend/src/dialer/dialer.gateway.ts, backend/src/calling/calling.gateway.ts), Messages
--             and Calls (frontend/src/store) and Events (frontend/src/lib/websocket.ts). Client is the
--             session (store/authStore.ts) and its renewal (lib/api.ts). Proxy (lib/proxy.ts)
--             keeps the tokens in cookies. Voice (lib/webrtc.ts) and DialPad (the keys of the pad) are
--             the browser's end of a call, Overlay the call that comes in, Wizard the page that makes a
--             campaign, and Forms the rules for a password, against those of the server.
--   Telephony backend/src/telephony: what providers/twilio.provider.ts reads from a webhook, and the
--             guard (guards/webhook-signature.guard.ts); Endpoints puts guard, parser and handler
--             together. Payload and Telnyx are the same for providers/telnyx.provider.ts, whose
--             webhooks are JSON. TelnyxClient, TelnyxRequests, TwilioClient and TwilioRequests are what
--             the two providers ask of their services, CallControl what they are told to do with a
--             call, and Search the search of numbers.service.ts through Telnyx. Bandwidth is
--             providers/bandwidth.provider.ts, and the choice of a provider.
--   Common    backend/src/common: the envelope that every answer goes out in, and what the client
--             (frontend/src/lib/api.ts) reads off it.
--   Access    backend/src/api-keys, and Throttle (backend/src/common/throttler).
--   Contacts  backend/src/contacts/contacts.service.ts, with the import in Import and the pages of the
--             list in Listing.
--   Templates backend/src/templates/templates.service.ts.
--   Audit     backend/src/audit/audit.service.ts.
--
-- How they interact: a campaign starts only from a number of Numbers and under a plan of Plans; an
-- inbound message finds its owner through the cache of Numbers, and an opt-out puts the sender on the
-- do-not-call list that the Dialer filters by. A call finds its owner in the same way. The events that
-- Messaging and Calling leave are the ones that the gateways of Browser turn into packets, and the jobs
-- run on the stores of Auth, Messaging, Calling and Billing.
--
-- An operation is a function of its arguments and a store, a record of the tables and caches that the
-- service uses. It answers a result and the store as it is left, after an exception too. What comes
-- from outside is an argument: the time of the call, the ids and random values that are drawn, and
-- the answers of providers, of the cryptography (the record Auth.Crypto) and of the Go dialer
-- service. Nothing is assumed of these but what a theorem names.
--
-- An operation runs as a whole: two requests that interleave between their queries are not
-- modelled, and sequences of requests are. Every loop runs over a list, but for the decimal digits of a
-- number (Dialer/Text), which have the number plus one as fuel: each step takes a digit away.
-- Numbers are natural numbers, times are milliseconds, and amounts of money are cents.
--
-- Not modelled: controllers and modules, which are glue; the providers for Vonage and Plivo, which are
-- stubs; Redis, Stripe, the services of the providers and the Go dialer
-- service, which are reached over a network; logs; and the views of the frontend.
pub mod Base
pub mod Plans
pub mod Auth
pub mod Numbers
pub mod Dialer
pub mod Messaging
pub mod Billing
pub mod Calling
pub mod Jobs
pub mod Browser
pub mod Telephony
pub mod Templates
pub mod Audit
pub mod Common
pub mod Access
pub mod Contacts
