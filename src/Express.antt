-- ===== src/Express.antt =====
-- src/primihub/executor/express.{h,cc}: arithmetic expressions over the columns of three parties.
pub mod Parse
pub mod Grammar
pub mod Characters
pub mod Pending
pub mod RoundTrip
pub mod Value
pub mod Evaluate
pub mod Rows
pub mod Local
pub mod Mpc
pub mod Agree
pub mod Refine
pub mod Check
pub mod Config
pub mod Resolve
pub mod Feed
pub mod Fed
pub mod Imported
pub mod Mode
pub mod Tokens
pub mod Copy
pub mod Tests
