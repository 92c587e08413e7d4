-- ===== src/Lib.antt =====
-- Verification of the fixitph backend: the marketplace in which a customer posts a request,
-- providers quote on it, an accepted quote becomes a booking, and the booking moves through its
-- lifecycle, with the checks on accounts around it.
--
-- The parts, and where they are modelled:
--
--   prisma/schema.prisma                    Schema: the enums, the rows, and Db, the tables together
--   src/common/errors.ts                    Errors: the codes and the HTTP statuses
--   src/prisma/prisma.service.ts            Transaction: a step takes the session and the database,
--   src/common/types.ts                     and returns a value and a database, or a failure, which
--                                           withUser rolls back
--   prisma/migrations/20260101000200_security/migration.sql
--                                           Database: Policies (row level security), Constraints
--                                           (CHECKs and unique indexes), Writes (each Prisma write
--                                           under them, with the trigger that records the status of
--                                           bookings)
--   src/bookings/bookings.service.ts        Bookings: Lifecycle (TRANSITIONS, assertTransition),
--                                           Service (create, update, confirm, start, cancel, complete)
--   src/quotes/quotes.service.ts            Quotes.Service: create, update, accept, reject, findOne
--   src/requests/requests.service.ts        Requests: Lifecycle, Service (create, updateStatus, findOne)
--   src/disputes/disputes.module.ts         Disputes.Service: create
--   src/reviews/reviews.service.ts          Reviews: Rating (recomputeRating), Service (create, update,
--                                           report)
--   src/admin/admin.service.ts              Admin.Service: resolveDispute, resolveReport,
--                                           setReviewVisibility, behind RolesGuard; Admin.Accounts:
--                                           suspendUser, reinstateUser
--   src/categories/categories.service.ts    Categories.Service: create, update, remove
--   src/auth/auth.service.ts                Auth: Tables, Service (register, login, me), Refresh (refresh,
--                                           logout, validateAccessToken)
--   src/auth/google-auth.service.ts         Auth.Google: signIn
--   src/auth/password-reset.service.ts      PasswordReset.Service: request, verify, reset
--   src/auth/email-verification.service.ts  EmailVerification.Service: send, confirm
--   src/providers/verification.ts           Verification.Badges
--
-- Bookings, Quotes, Requests, Disputes, Reviews and Admin share one database, Db. Each call is one
-- transaction: `create_tx`, `accept_tx` and so on are the functions that the source gives to
-- withUser, and `create`, `accept` run them for a caller. Platform.Calls gathers the calls that
-- write into one type and runs any sequence of them, each with its own caller and its own draws of
-- the clock and of identifiers.
--
-- Bookings.Spec is the abstract contract: a step relation on the bookings and their history, with
-- no sessions, policies or other tables. Bookings.Refinement, Stepping, Implements and
-- Rescheduling, Quotes.Steps, Requests.Steps, Disputes.Steps, Reviews.Steps and Admin.Steps compare
-- the operations with it, and Platform.Refinement puts them together. Bookings.Promises, Releases
-- and Permanence are about the steps alone, and Platform.Promises is about the calls again.
-- Database.Consistency is the invariant of the tables, which Database.WritesKeep takes through each
-- write, and the modules named Consistency through each operation. Transaction.Keeps has the rules
-- for what every step keeps, and Transaction.Returns those for what a success returns.
--
-- Conventions. Identifiers are natural numbers, times are milliseconds, amounts are centavos. A
-- table is a list with the newest row first. Texts that the account services only hash and compare
-- are numbers. argon2, SHA-256, the normalisation of addresses, the clock and the random values are
-- parameters, `Crypto`, `Env` and `Draws`; what a theorem needs of them is its hypothesis. The
-- loops of the source go over lists, and are recursion on the list, but for the check for cycles of
-- categories, whose twenty rounds are the bound that the source sets.
--
-- Auth, PasswordReset and EmailVerification keep accounts and tokens in tables of their own.
-- Auth.Calls gathers the calls that write sessions, and Auth.Families and Auth.Rotation are about
-- any sequence of them. Admin.Accounts acts on the same tables, and Categories has its own.
-- jsonwebtoken is a parameter too, and so is which way toFixed takes a float that lies halfway.
--
-- Not modelled: the order of two transactions that overlap (calls run one after another), the
-- controllers and the validation of requests, the reads that only build a view (list, feed, the
-- contact view), messages of errors and notifications, the addresses and the rows before and after in
-- the audit trail, the rest of administration (verification, listings, settings), the slugs of
-- categories, and the other modules of the backend: messages, providers, uploads, cache and events.
-- Examples holds a small marketplace with tests.
pub mod Prelude
pub mod Schema
pub mod Errors
pub mod Transaction
pub mod Database
pub mod Bookings
pub mod Categories
pub mod Quotes
pub mod Requests
pub mod Disputes
pub mod Reviews
pub mod Admin
pub mod Auth
pub mod PasswordReset
pub mod EmailVerification
pub mod Verification
pub mod Platform
pub mod Examples
