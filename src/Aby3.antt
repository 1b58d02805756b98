-- ===== src/Aby3.antt =====
-- src/primihub/operator/aby3_operator.{h,cc}: the operations of `MPCOperator` that the repository writes
-- itself.
pub mod Share
pub mod Constants
pub mod Compare
pub mod Less
pub mod Operator
pub mod Library
pub mod Plain
pub mod Tests
