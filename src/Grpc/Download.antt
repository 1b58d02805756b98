-- ===== src/Grpc/Download.antt =====
-- src/primihub/node/ds.cc and src/primihub/util/network/grpc_link_context.cc: `DownloadData`, at the node that has
-- the files and at the client. The file system is an argument: the bytes of a path, `none` if there is
-- no file or it cannot be opened.
use primihub.Prelude.{
  ℕ, zero, suc, ◌-◌, ◌*◌, ◌/◌, ◌%◌, Bool, true, false, not, ◌&&◌, Option, none, some, List, [], ◌∷◌,
  ◌++◌, nat_beq, if◌then◌else◌, Bytes, length, take, drop, Retcode, success, fail,
}
use primihub.Grpc.{limited_package_size}

pub record DataBlock : Type 0 where
  pub file_name : Bytes
  pub bytes : Bytes
  pub is_last_block : Bool

abbrev block : Bytes → Bytes → DataBlock
block name b = record { file_name = name; bytes = b; is_last_block = false }

abbrev pub end_flag : DataBlock
end_flag = record { file_name = []; bytes = []; is_last_block = true }

-- The loop over the whole blocks of a file, which reads on where the last block ended.
unfoldable pub read_full : ℕ → ℕ → Bytes → Bytes → List DataBlock
read_full zero size name b = []
read_full (suc n) size name b = block name (take size b) ∷ read_full n size name (drop size b)

-- The blocks of a file, with blocks of this size: the whole ones, the rest, and the flag for the end.
unfoldable pub file_blocks : ℕ → Bytes → Bytes → List DataBlock
unfolding read_full
file_blocks size name b =
    let n = length b / size in
    let last_block_size = length b % size in
    let last : List DataBlock =
      if nat_beq last_block_size 0
      then []
      else block name (take last_block_size (drop (n * size) b)) ∷ [] in
    read_full n size name b ++ (last ++ end_flag ∷ [])

-- `DownloadDataImpl`: what it pushes, and whether it throws.
unfoldable pub download_impl : (Bytes → Option Bytes) → List Bytes → List DataBlock × Bool
unfolding file_blocks
download_impl files [] = ([], false)
download_impl files (f ∷ r) =
    let (blocks, threw) = download_impl files r in
    elim (files f) [
      | none ↦ ([], true)
      | some b ↦ (file_blocks limited_package_size f b ++ blocks, threw)
    ]

-- `rpc::DownloadRespone`.
pub record DownloadResponse : Type 0 where
  pub code : Retcode
  pub file_name : Bytes
  pub bytes : Bytes

abbrev error_response : DownloadResponse
error_response = record { code = fail; file_name = []; bytes = [] }

-- The loop that answers the client, on what the reading thread pushes and whether that throws in the
-- end, which shuts the queue down; `calm` blocks are answered before the throw is noticed. `none`: the
-- loop sleeps.
unfoldable pub answer_loop : ℕ → List DataBlock → Bool → Option (List DownloadResponse)
answer_loop calm [] threw = if threw then some (error_response ∷ []) else none
answer_loop calm (b ∷ r) threw =
    let rest = answer_loop (calm - 1) r threw in
    let response : DownloadResponse = record {
      code = success;
      file_name = b.file_name;
      bytes = b.bytes;
    } in
    if b.is_last_block
    then some []
    else if threw && nat_beq calm 0
    then some (error_response ∷ [])
    else elim rest [ none ↦ none | some q ↦ some (response ∷ q) ]

-- `DataServiceImpl::DownloadData`.
unfoldable pub on_download :
    (Bytes → Option Bytes) → ℕ → List Bytes → Option (List DownloadResponse)
unfolding download_impl answer_loop
on_download files calm [] = some (error_response ∷ [])
on_download files calm (f ∷ r) =
    let (blocks, threw) = download_impl files (f ∷ r) in answer_loop calm blocks threw

-- `GrpcChannel::DownloadData`, the loop: the blocks up to the first response that is an error.
unfoldable pub collect_blocks : List DownloadResponse → Bool × List Bytes
collect_blocks [] = (false, [])
collect_blocks (q ∷ r) =
    let (has_error, blocks) = collect_blocks r in
    elim q.code [ fail ↦ (true, []) | success ↦ (has_error, q.bytes ∷ blocks) ]

-- The whole of it, with the responses that came and whether the status is OK.
unfoldable pub download_data : List DownloadResponse → Bool → Retcode × List Bytes
unfolding collect_blocks
download_data responses status =
    let (has_error, blocks) = collect_blocks responses in
    (if status && not has_error then success else fail, blocks)
