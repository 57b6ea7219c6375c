-- ===== src/Auth/Handlers.antt =====
-- The handlers of accounts and sessions in backend/internal/http/handlers/auth.go, in the parts that the
-- children hold.
mod Data
mod Session
mod Entry
pub mod Onboarding
unfoldable pub use Data.*
unfoldable pub use Session.*
unfoldable pub use Entry.*
