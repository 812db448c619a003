-- ===== src/Prelude.antt =====
-- The names that the other modules share: the libraries', passed on, and those of the children:
-- tests on numbers, lists measured by native numbers, signed integers, Go strings as lists of code
-- points, and Go maps as association lists.
mod Tests
mod Lists
mod Base
mod Int
mod Strings
mod Dict
unfoldable pub use Base.*
unfoldable pub use Int.*
unfoldable pub use Strings.*
unfoldable pub use Dict.*
