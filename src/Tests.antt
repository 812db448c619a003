-- ===== src/Tests.antt =====
-- Concrete inputs of the program's parts, to which the theorems apply.
mod Sorts
mod Recents
mod Searches
mod Downloads
mod Engines
mod Stores
mod Clis
mod Commands
mod Crawlers
mod Bootstraps
mod Migrations
mod Services
mod Tuis
mod Deletions
use p2pget.Strings.{Unicode}

-- Unicode tables that know no letter beyond ASCII.
instance pub ascii_only : Unicode
ascii_only = record { lower = λ c. c }
