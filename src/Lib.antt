-- ===== src/Lib.antt =====
-- Verification of the backend of the 420 game: a Nest server over a Prisma client, through which
-- players breed buds on the slots of their lands and an event service reports the chain's events.
--
-- A request is an action on the database. It reads and writes rows through the client, meets the
-- chain, the metadata service and the wallet, and answers or throws. No handler opens a
-- transaction, so what was written before an error stays. The parts call one another directly:
-- the breeding controller uses the buds, the slots, the users' points and the hash tables; the
-- admin controller uses the buds and fails sessions; login makes the first slots of a land.
--
-- Files:
--   Common     tests, lists, integers and counting lemmas over the native numbers.
--   Schema     prisma/schema.prisma, src/types.ts, src/utils/errors.ts: rows, enums, errors.
--   Db         the tables as state, the queries that the handlers use, and the action monad, in
--              place of src/prisma: Machine and Query are the client, Triple and Inversion are
--              rules to reason with.
--   Env        src/config.ts and src/config/app.config.ts; the clock, Math.random(), and the
--              services outside the code, which are parameters.
--   Utils      src/utils: randomNumber, winRandomChance, getBreedTime, generateRandomBud,
--              signMintRequest, the gift cards' types and supplies.
--   HashTable  src/hash-table and data/*.json.
--   Bud        src/bud: verifyBudPairs, checkBudPairGenders, getMetadatas, diceGen1Bud,
--              issueGen1BudMint, renameGen1Buds.
--   User       src/user: consumeBreedingPoint, getUser, convertBp2High.
--   Land       src/land: slots, and the purchases that the backend signs for.
--   Breed      src/breed: createPair, levelBreedingUp, cancelBreeding, finalizeBreeding,
--              invalidatePair, and their service; Views are the listings and their DTOs.
--   Admin      src/admin: what the event service reports.
--   GiftCard   src/gift-card.
--   Stats      src/stats: Snapshot is the hourly snapshot, one SQL statement to a function;
--              Queries, Metrics and History are the ranking, the breeders, the shop's requirements
--              and the deposits of a user.
--   Races      requests that run at the same time: the reports of points, and createPair.
--   Auth       login of src/user, src/middlewares and src/guards.
--   Filters    src/filters: the bodies of error answers.
--   Sessions   sequences of all requests: the invariant of sessions and slots (Good, Rules), and the
--              life cycle of a session (Moves, Lasting, LifeCycle).
--   Tests      the theorems at concrete inputs.
-- A function keeps the source's name in the spelling of this language (createPair is create_pair);
-- a part of a handler that runs on the result of a query is a function of its own.
--
-- Numbers: ids, times (in milliseconds) and amounts are natural numbers; a rate is an integer
-- number of tenths of a percent, since the tables hold tenths; breeding points are integers, and
-- the admin's amounts natural numbers of hundredths. Math.random() is a stream of numbers below
-- 2 ^ 53, each in units of 2 ^ -53; its product with a range is exact here, where the source
-- rounds it to a double before it takes the floor. Addresses, transaction hashes and keys are
-- numbers, since they are only compared; an address in other letters' case is another number, and
-- toLowerCase and getAddress are parameters. Two functions run on fuel: the loop that cuts a list
-- into chunks has one round for each id, which is enough because a round takes at least one; and
-- the printing of a game key in the login message has 21 digits, since from 10 ^ 21 on JavaScript
-- writes an exponent.
--
-- The score of a player is an integer number of hundredths, and the hours of a session are tenths.
-- Where SQL fixes no order of rows or groups, they keep the table's.
--
-- A handler runs by itself, except in Races: there the requests that read a user's points and write
-- them back are cut at their calls of the database and run in any order, and so are two requests
-- for a session at the end of their checks.
--
-- The database refuses a session without its user's row, a second log of one transaction, a second
-- row of a session's level, and a null in a column that has to have a value; a number that a refused row took from its sequence is
-- given again here. Of the other foreign keys, each refers to a row that the same request has found
-- or made.
--
-- Of the login, the signature's recovery, the reading of a timestamp and the tokens are parameters:
-- ethers and jsonwebtoken do them. A rejection that nothing handles is kept in the state; what the
-- runtime does about it is not modelled. Not modelled either: the validation of request bodies,
-- logging, and the start of the server. The JSON text in the event log is kept as the value that it
-- is made of.
pub mod Common
pub mod Schema
pub mod Db
pub mod Env
pub mod Utils
pub mod HashTable
pub mod Bud
pub mod User
pub mod Land
pub mod Breed
pub mod Admin
pub mod GiftCard
pub mod Stats
pub mod Races
pub mod Auth
pub mod Filters
pub mod Sessions
mod Tests
