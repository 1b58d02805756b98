-- ===== src/Paillier.antt =====
-- src/primihub/algorithm/opt_paillier: packing of many numbers into one plaintext.
pub mod Crt
pub mod Product
pub mod Retrieve
pub mod Tests
