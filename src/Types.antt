-- ===== src/Types.antt =====
-- internal/types: the data that every other part exchanges. A Go string type with named constants
-- is a data type with those constants; times and durations are nanoseconds, the zero time is 0.
mod Money
mod States
mod Workloads
mod Targets
mod Plans
pub use Money.*
unfoldable pub use States.*
unfoldable pub use Workloads.*
pub use Targets.*
unfoldable pub use Plans.*
