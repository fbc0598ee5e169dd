-- ===== src/Lib.antt =====
-- nest-rest-backend-template: a backend of two NestJS services over PostgreSQL, Redis and BullMQ.
--
-- The auth-service (apps/auth-service/src/modules/auth) holds the credentials. Its handlers read and
-- write the tables `user`, `refresh` and `password_reset_token` through repositories, call the
-- password service of libs/auth and the token issuer, and queue mails.
--
-- The captcha module of the backend draws images in batches into pools of ids in Redis (the
-- generation processor), gives a challenge one reserved asset out of a pool, and judges the answers to it. An
-- asset goes from available to reserved to used; a challenge from pending to passed, failed or
-- expired.
--
-- A notification waits as pending until a job of the queue dispatches it, by mail or in the app; a
-- dispatch that fails is tried again until the job has no attempts left.
--
-- An access token of the backend carries a version of its user. The users module keeps the current
-- one in the table of users and a copy in Redis, and refuses tokens of another version.
--
-- A file is a row with versions; its contents are objects in S3, at a path made of the owner and the
-- name. Uploads run in a transaction each; downloads choose a version and are open to the owner and the
-- staff, or to anyone if the file is public.
--
-- Routes of the backend carry policies, an action on subjects. A guard lets a caller through by the
-- CASL ability of the caller's role, which is cached, and by the table of permissions where no caller
-- is known.
--
-- A mail is pending, sent or failed. The mail module sends it from a job of the queue or from a run
-- over all pending mails in batches, and takes failed ones up again.
--
-- Files:
--   Prelude      names of the library, Boolean tests, instances of ==, lists
--   Exec         methods that may throw: a state, and a result or what was thrown
--   Sql          the statements of the repositories over tables given as lists of rows
--   Auth         the auth-service, after apps/auth-service/src/modules/auth:
--     Platform         argon2, HMAC, jsonwebtoken and the configuration, as parameters
--     Entities         domain/entities, application/commands, libs/contracts/auth
--     Store            infrastructure/repositories/drizzle, libs/database/users.schema.ts
--     PasswordService  libs/auth/password-service.adapter.ts
--     TokenIssuer      infrastructure/services/token-issuer.service.ts
--     MailProducer     infrastructure/services/mail-producer.service.ts
--     Login            application/handlers/login.handler.ts
--     RefreshTokens    application/handlers/refresh-tokens.handler.ts, logout.handler.ts
--     Passwords        forgot-password, reset-password and change-password.handler.ts
--     Journey          a login and then a refresh
--   Captcha      the captcha module, after apps/backend/src/modules/captcha:
--     Types            domain/captcha.types.ts, commands and ports
--     Store            infrastructure/repositories and infrastructure/redis
--     Hashing          infrastructure/hashing and domain/services
--     Verify           VerifyCaptchaChallengeHandler of application/handlers/captcha.handlers.ts
--     Challenge        CreateCaptchaChallengeHandler, with the loop that draws from the pool
--     Templates        the handlers of templates, versions, previews, batches and images
--     Generation       infrastructure/processors/captcha-generation.processor.ts
--   Notification the dispatch of notifications, after apps/backend/src/modules/notification:
--     Store            domain/entities and infrastructure/repositories
--     Dispatch         infrastructure/processors/notification-dispatch.processor.ts
--   Users        the users module, after apps/backend/src/modules/users:
--     TokenVersion     infrastructure/services/auth-token-version.service.ts
--     AuthEffects      application/events/auth.events.ts, auth-cookies.helper.ts
--     Gateway          the handlers that call the auth-service
--     RolePermissions  the repository of permissions, the enums of actions and subjects
--     Policies         infrastructure/services/policies.service.ts,
--                      apps/backend/src/guards/policies.guard.ts
--   Common       what the modules of the backend share, after apps/backend/src/common:
--     Paginated        Paginated.ts
--     Encryption       crypto/encryption.service.ts
--     Password         generate-password.ts
--   File         the file module, after apps/backend/src/modules/file:
--     Store            domain/entities, common/drizzle/schema/file.schema.ts, the reading methods of
--                      infrastructure/repositories/file.repository.drizzle.ts
--     Adapter          infrastructure/adapters/s3.adapter.ts
--     Uploads, Update, Download
--                      the writing methods and `download` of the repository, with their handlers
--     Listing          the query handlers and mappers
--     Requests         presentation/controllers/file.controller.ts
--     Journey          an upload and then a download
--   Mail         the mail module, after apps/backend/src/modules/mail:
--     Store            domain/entities, common/drizzle/schema/mail.schema.ts and
--                      infrastructure/repositories
--     Service          infrastructure/services/mail.service.ts, the processor, send-mail.handler.ts
--     Retry            retry-failed-mails.handler.ts, get-mail-status.handler.ts
--
-- State and time. A handler is a function from what it reads outside (clock, random values, ids that
-- the database draws), its command and the tables to a result and the tables. An instant is its number
-- of milliseconds. What was written before a throw stays written. A table is the list of its rows in
-- the order in which the database returns them; where pages are cut out of several queries without an
-- ORDER BY, each query has an order of its own.
--
-- Bounds and fuel. The lockout's numbers are those of the source: three and five failures, fifteen and
-- thirty minutes. The loop of a challenge's creation runs on fuel: one turn more than the pool has ids,
-- which is enough since every turn takes an id out of the pool. An i-th clock reading, random draw or
-- upload is the value at i of a function.
--
-- The cache of abilities is read in the states that a start, fills, questions of the guard and seeds
-- lead to; a seed refreshes the cache before the next question.
--
-- Runs follow one another: two handlers whose statements interleave are not modelled, though the
-- services hold no lock between their reads and writes.
--
-- Not modelled: logging, the wiring of the framework, HTTP and gRPC, and the parts of apps/backend
-- that are not named above.
pub mod Prelude
pub mod Exec
pub mod Sql
pub mod Auth
pub mod Captcha
pub mod Common
pub mod File
pub mod Mail
pub mod Notification
pub mod Users
