-- ===== src/Psi/Tee.antt =====
-- src/primihub/kernel/psi/operator/tee_psi.cc: the PSI in an enclave, the sides that have the data. The hash, the
-- enclave and the encryption with shared keys are arguments.
use primihub.Prelude.{
  ℕ, zero, suc, ◌/◌, Bool, not, ◌&&◌, Option, none, some, List, [], ◌∷◌, ◌++◌, if◌then◌else◌, Bytes,
  has, length, take, drop, Retcode, success, fail,
}
use primihub.Psi.Ecdh.{Step, done, failed, over_read}
use primihub.Prelude.Dict.{Dict, insert, lookup}

-- The loop of `HashData`, with the items seen so far: the table from hashes to items.
unfoldable pub hash_loop : (Bytes → Bytes) → List Bytes → List Bytes → Dict Bytes → Dict Bytes
hash_loop hash dup_filter [] table = table
hash_loop hash dup_filter (item ∷ r) table =
    let again = hash_loop hash dup_filter r table in
    let fresh = hash_loop hash (item ∷ dup_filter) r (insert (hash item) item table) in
    if has item dup_filter then again else fresh

-- `HashData`; `init` is whether the algorithm is known.
unfoldable pub hash_data : Bool → (Bytes → Bytes) → List Bytes → Option (Dict Bytes)
unfolding hash_loop
hash_data init hash input = if init then some (hash_loop hash [] input []) else none

-- The hashes, one behind the other.
unfoldable plain_data : Dict Bytes → Bytes
plain_data [] = []
plain_data ((h, x) ∷ r) = h ++ plain_data r

-- The loop of `GetIntersection`, with the number of hashes in the buffer.
unfoldable pub intersect_loop : ℕ → ℕ → Bytes → Dict Bytes → List Bytes
intersect_loop zero hash_size buf table = []
intersect_loop (suc n) hash_size buf table =
    let rest = intersect_loop n hash_size (drop hash_size buf) table in
    elim (lookup (take hash_size buf) table) [ none ↦ rest | some item ↦ item ∷ rest ]

-- `GetIntersection`. The size of the hashes is that of the table's first key: without one, it is read
-- behind the end, and hashes of size 0 are a division by zero.
unfoldable pub tee_intersection : Bytes → Dict Bytes → Step (List Bytes)
unfolding intersect_loop
tee_intersection buf [] = over_read
tee_intersection buf (([], x) ∷ r) = over_read
tee_intersection buf ((b ∷ h, x) ∷ r) =
    let size = length (b ∷ h) in done (intersect_loop (length buf / size) size buf ((b ∷ h, x) ∷ r))

-- `ExecuteAsDataProvider` up to its `Send`: whether the compute node is known and the channel to it
-- stands, and the encryption, `none` where it fails. The message, and the table that is kept.
unfoldable provide :
    Bool
    → Bool
    → Bool
    → (Bytes → Bytes)
    → (Bytes → Option Bytes)
    → List Bytes
    → Step (Bytes × Dict Bytes)
unfolding hash_data plain_data
provide has_node has_channel init hash encrypt input =
    if not (has_node && has_channel) then failed else elim (hash_data init hash input) [
      | none ↦ failed
      | some [] ↦ over_read
      | some (e ∷ table) ↦ elim (encrypt (plain_data (e ∷ table))) [
        | none ↦ failed
        | some cipher ↦ done (cipher, e ∷ table)
      ]
    ]

-- The rest of it: whether the party gets the result, what `Recv` gives, and the decryption: `none` where
-- the size cannot be had. A code that says that it failed later is not looked at.
unfoldable pub finish_provider :
    Bool → Retcode × Bytes → (Bytes → Option Bytes) → Dict Bytes → Step (List Bytes)
unfolding tee_intersection
finish_provider is_receiver (ret, buf) decrypt table =
    if not is_receiver then done [] else elim ret [
      | fail ↦ failed
      | success ↦ elim (decrypt buf) [
        | none ↦ done []
        | some [] ↦ done []
        | some (b ∷ s) ↦ tee_intersection (b ∷ s) table
      ]
    ]
