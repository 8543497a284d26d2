-- ===== src/Lib.antt =====
-- Verification of the Taksees backend, a NestJS service for Sunday-school classes.
--
-- The program. A request passes the guards of its route (RolesGuard on the role,
-- ClassTenantGuard on the class that the X-Class-Id header names), then the handler of a
-- controller, which calls a service. The services work on entities and on repositories behind
-- interfaces; the repositories call the client of the database. What is thrown reaches one of
-- two exception filters, which send problem details. Beside that stand a file storage, a
-- provider of push notifications, the health checks, and a script that creates the super admin
-- and one that seeds the database. Bodies, queries and the environment are validated against
-- schemas first.
--
-- Which file models which part (paths from the repository's root):
--   Prelude: shared names and lemmas; JavaScript strings as lists of UTF-16 code units.
--   Errors: src/common/exceptions, the errors of src/modules/classes/domain, and what else is
--     thrown.
--   Effects: asynchronous code, as state passing where a call returns or throws and keeps what
--     it wrote.
--   Phone: src/modules/classes/domain/value-objects/phone.vo.ts (Phone.parse).
--   Roles: src/common/types/auth-user.ts and every place that turns a stored role string into a
--     role.
--   Guards: src/common/guards (canActivate of each guard).
--   Storage: src/infrastructure/storage/local-storage.service.ts (resolveKey, put, get, delete,
--     exists); Storage/Path and Storage/Encode have the functions of node:path and
--     encodeURIComponent it uses.
--   Classes: src/modules/classes. Level and Entities are the domain, Interfaces the repository
--     interfaces, Services the three services (one definition per method, with the branches
--     after an awaited call as helpers), Repositories the four repositories, Controllers the
--     handlers; Repositories/Classes/Registry is what the class service promises, without
--     tables.
--   Filters: src/common/filters and the filters' registration in src/app.module.ts.
--   SuperAdmin: scripts/create-super-admin.ts (parseArgs, main).
--   Seed: prisma/seed.ts. Calls has what it reads, draws and calls, Password the stored format
--     of a password, Members the members that it makes; Prelude/Decimal writes numbers as the
--     source does.
--   Validation: src/common/pipes/zod-validation.pipe.ts (Pipe) and
--     src/modules/classes/dto/classes.dto.ts (Dto has the schemas as values, Decode the types
--     that they infer, as what the handlers read); Checker is a validator that meets the law for
--     Zod.
--   Config: src/config/env.validation.ts, src/config/configuration.ts, and the origins of
--     src/main.ts (Origins: what the variable means).
--   Auth: src/auth/auth.ts, the options that it gives Better Auth; its update hook is in Roles.
--   Server: the middleware of src/main.ts and src/common/interceptors, with the exception
--     filter; Server/Answers is what a handler's end becomes, by the filters in the order in
--     which they are tried.
--   Health: src/health/indicators (isHealthy of each indicator); Controller is
--     health.controller.ts.
--   Push: src/infrastructure/push/web-push.provider.ts (the constructor and send).
--   Infrastructure: src/infrastructure/database, src/infrastructure/cache and
--     src/infrastructure/queue.
--   Start: src/main.ts, src/worker.ts and the options of the logger in src/app.module.ts.
--
-- How the code is read. A method that awaits is a function from its arguments and a state to a
-- result and a state; the type of the state and the repositories are parameters, so that a
-- theorem without laws for them also covers states that other requests write to between two
-- calls. Where a theorem needs what a repository or the client of the database does, the laws
-- are a record (IsMapping, IsFixed, IsTable, IsMemberTable, IsPhoneTable, IsSearch, IsUserTable,
-- IsLawful, IsClassTable, IsDatabase, IsZod, IsTimeout, IsScrypt) that a client in memory meets
-- in the tests. Calls of libraries (Better Auth, Prisma, web-push, Zod, Nest's pipes and its
-- order of the filters) are parameters. Calls that Promise.all starts together run in order.
-- Numbers are natural numbers, since no negative number occurs but the rows to skip at page 0,
-- which has its own constructor. Every loop is a recursion on a list, but for the digits of a
-- number, whose rounds are bounded by the number itself, which is enough since each divides it
-- by ten.
--
-- Not modelled: the decorators, which only hand values on to the framework; the lines that are
-- logged or printed; the limits of the throttler; toJSON of the entities, which lists their
-- fields; the schema of the database; and the wiring of the modules. What Zod, Better Auth, RxJS
-- and the framework do is not in the repository.
pub mod Prelude
pub mod Errors
pub mod Effects
pub mod Phone
pub mod Roles
pub mod Guards
pub mod Storage
pub mod Classes
pub mod Filters
pub mod SuperAdmin
pub mod Seed
pub mod Validation
pub mod Config
pub mod Auth
pub mod Server
pub mod Health
pub mod Push
pub mod Infrastructure
pub mod Start
