-- ===== src/Schema.antt =====
-- prisma/schema.prisma: the tables' rows, and what a request can be refused with
-- (src/utils/errors.ts). A row keeps the columns that the code reads or writes; `updatedAt` is
-- written by the client alone and read by nothing that is modelled.
-- Addresses, transaction hashes and keys are only compared, so they are numbers. A date is its
-- number of milliseconds. A rate is a number of tenths.
mod Request
mod Rows
pub use Request.*
unfoldable pub use Rows.*
