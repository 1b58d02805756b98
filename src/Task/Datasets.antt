-- ===== src/Task/Datasets.antt =====
-- src/primihub/task/language/proto_parser.cc and
-- src/primihub/service/dataset/meta_service/grpc_impl.cc: the datasets that a task names, and the search
-- for their metadata.
use Prim.Native.Nat.{ℕ, zero, suc, ◌+◌}
use primihub.Prelude.{
  Bool, none, some, List, [], ◌∷◌, ◌++◌, map, nat_beq, if◌then◌else◌, Bytes, length,
}
use primihub.Grpc.Client.{retry_max_times}
use primihub.Prelude.Dict.{Dict, assign, lookup}

-- `ProtoParser::parseDatasets`, its inner loop, for a party with its datasets by index.
unfoldable pub datasets_of : Bytes → Dict Bytes → List (Bytes × Bytes)
datasets_of party_name [] = []
datasets_of party_name ((index, []) ∷ r) = datasets_of party_name r
datasets_of party_name ((index, b ∷ s) ∷ r) = (b ∷ s, party_name) ∷ datasets_of party_name r

-- The ids of the datasets that are named, with their parties.
unfoldable pub parse_datasets : Dict (Dict Bytes) → List (Bytes × Bytes)
unfolding datasets_of
parse_datasets [] = []
parse_datasets ((party_name, d) ∷ r) = datasets_of party_name d ++ parse_datasets r

-- What the parser uses of a dataset's metadata.
pub record DatasetMeta : Type 0 where
  pub id : Bytes
  pub server_info : Bytes

-- `DatasetData` of a reply.
pub record DatasetData : Type 0 where
  pub available : Bool
  pub meta_info : DatasetMeta

-- What comes of a call of `GetDataset`: no answer, an answer whose code is not SUCCESS, or the datasets.
pub data GetDatasetReply : Type 0 where
  not_answered : GetDatasetReply
  not_found : GetDatasetReply
  answered : List DatasetData → GetDatasetReply

-- What comes of `FindPeerListFromDatasets`: FAIL, an exception, or a call of the handler.
pub data FindResult : Type 0 where
  no_handler : FindResult
  raised : FindResult
  handled : List (DatasetMeta × Bytes) → FindResult

-- `id2tag`: a later entry for an id takes the place of an earlier one.
unfoldable pub tags_of : List (Bytes × Bytes) → Dict Bytes → Dict Bytes
tags_of [] id2tag = id2tag
tags_of ((dataset_id, dataset_tag) ∷ r) id2tag = tags_of r (assign dataset_id dataset_tag id2tag)

abbrev pub ids_of : List (Bytes × Bytes) → List Bytes
ids_of datasets_with_tag = map (λ (p : Bytes × Bytes). p.0) datasets_with_tag

-- The calls of `GetDataset`, with the retries that are left; the server answers call number `n`.
unfoldable pub get_dataset :
    (ℕ → List Bytes → GetDatasetReply) → ℕ → ℕ → List Bytes → GetDatasetReply
get_dataset server zero n ids = server n ids
get_dataset server (suc left) n ids = elim (server n ids) [
  | not_answered ↦ get_dataset server left (n + 1) ids
  | not_found ↦ not_found
  | answered data_set ↦ answered data_set
]

-- The loop over the reply: an unavailable dataset, or one without a tag, is left out.
unfoldable pub meta_list : Dict Bytes → List DatasetData → List (DatasetMeta × Bytes)
meta_list id2tag [] = []
meta_list id2tag (dataset ∷ r) =
    let rest = meta_list id2tag r in
    if dataset.available
    then elim (lookup dataset.meta_info.id id2tag) [
      | none ↦ rest
      | some dataset_tag ↦ (dataset.meta_info, dataset_tag) ∷ rest
    ]
    else rest

abbrev handle : ℕ → List (DatasetMeta × Bytes) → FindResult
handle n metas = if nat_beq n (length metas) then handled metas else raised

-- `GrpcDatasetMetaService::FindPeerListFromDatasets`.
unfoldable pub find_peer_list :
    (ℕ → List Bytes → GetDatasetReply) → List (Bytes × Bytes) → FindResult
unfolding get_dataset tags_of meta_list
find_peer_list server [] = no_handler
find_peer_list server (p ∷ r) = elim (get_dataset server retry_max_times 0 (ids_of (p ∷ r))) [
  | not_answered ↦ no_handler
  | not_found ↦ no_handler
  | answered data_set ↦ handle (length (p ∷ r)) (meta_list (tags_of (p ∷ r) []) data_set)
]
