-- ===== src/Prelude/Outcome.antt =====
-- The two-valued return code of the program, and what a blocking call can do.

-- `primihub::retcode`.
pub data Retcode : Type 0 where
  success fail : Retcode
