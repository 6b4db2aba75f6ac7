-- ===== src/Utils.antt =====
-- src/utils: random numbers, breeding times and rates, gift cards, random buds, signatures.
mod Defs
mod Names
pub mod Random
pub mod Buds
unfoldable pub use Defs.*
pub use Names.{NameAndImage}
unfoldable pub use Names.{bud_names}
