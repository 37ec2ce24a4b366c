-- ===== src/Domain.antt =====
-- The data of a synchronization: src/domain/resource.ts, src/domain/synchronization.ts and
-- src/synchronization/synchronization.types.ts. An identifier, digest or path is a `String`, an
-- optional field is an `Option`, and a filesystem mode is a natural number.
pub mod Composition
mod Resource
mod Desired
mod Observed
mod Actions
pub mod Outcome
unfoldable pub use Resource.*
pub use Desired.*
unfoldable pub use Observed.*
pub use Actions.*
