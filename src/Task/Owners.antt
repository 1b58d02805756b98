-- ===== src/Task/Owners.antt =====
-- src/primihub/task/semantic/parser.cc: the parties that the datasets of a task bring in, and what its dispatch
-- comes to.
use primihub.Prelude.{
  ℕ, zero, suc, ◌+◌, ◌≤◌, ◌<◌, ◌≡◌, refl, sym, ap, ◌∙◌, some, List, [], ◌∷◌, map, arith, Bytes, All,
}
use primihub.Task.{PartyNode, merge_party_access_info}
use primihub.Task.Names.{or_else, or_else-none}
use primihub.Task.Merge.{node_of, merge_party_access_info_lem}
use primihub.Task.Schedule.{metas_to_party_access_info, find_parties}
use primihub.Common.{Node}
use primihub.Prelude.Dict.{Dict, lookup}
use primihub.Grpc.Context.{IsPlain}
use primihub.Task.Datasets.{
  parse_datasets, GetDatasetReply, find_peer_list, get_dataset, tags_of, DatasetData, answered,
  ids_of, not_answered, handled, parse_datasets,
}
use primihub.Grpc.Client.{retry_max_times}
use primihub.Task.Named.{
  published, reply_of, last_owner, named_owner, IsUsedOnce, access_loop-published, IsTagged,
  parse_datasets-IsTagged, tags_of_lem, owned_by, meta_list-owned_by, length-owned_by,
  owned_by-IsPlain, last_owner-parse_datasets,
}

get_dataset-reply :
    (server : ℕ → List Bytes → GetDatasetReply) (ids : List Bytes) (ds : List DatasetData)
    (lost left n : ℕ)
    → lost ≤ left
    → ((i m : ℕ) → i < lost → m ≡ n + i → server m ids ≡ not_answered)
    → ((m : ℕ) → m ≡ n + lost → server m ids ≡ answered ds)
    → get_dataset server left n ids ≡ answered ds
unfolding get_dataset
get_dataset-reply server ids ds zero zero n h u v = v n (omega arith)
get_dataset-reply server ids ds zero (suc left) n h u v = ground (arith, v n (omega arith))
get_dataset-reply server ids ds (suc lost) zero n h u v = absurd (omega (arith, h))
get_dataset-reply server ids ds (suc lost) (suc left) n h u v =
    let rest =
      get_dataset-reply server ids ds lost left (n + 1) (omega (arith, h))
        (λ i m q e. u (suc i) m (omega (arith, q)) (omega (arith, e)))
        (λ m e. v m (omega (arith, e))) in
    ground (arith, u 0 n (omega arith) (omega arith), rest)

find_peer_list-owned_by :
    (server : ℕ → List Bytes → GetDatasetReply) (owner_of : Bytes → Node) (lost : ℕ)
    (party_of : Bytes → Bytes) (p : Bytes × Bytes) (r : List (Bytes × Bytes))
    → lost ≤ retry_max_times
    → ((i : ℕ) → i < lost → server i (ids_of (p ∷ r)) ≡ not_answered)
    → server lost (ids_of (p ∷ r)) ≡ reply_of owner_of (ids_of (p ∷ r))
    → All (IsTagged party_of) (p ∷ r)
    → find_peer_list server (p ∷ r) ≡ handled (map published (owned_by owner_of (p ∷ r)))
unfolding find_peer_list
find_peer_list-owned_by server f lost party_of p r h u v t = ground (
  arith,
  get_dataset-reply server (ids_of (p ∷ r)) _ lost 3 0 h
      (λ i m q e. ap (λ k. server k (ids_of (p ∷ r))) (omega (arith, e)) ∙ u i q)
      (λ m e. ap (λ k. server k (ids_of (p ∷ r))) (omega (arith, e)) ∙ v),
  meta_list-owned_by f (p ∷ r) (tags_of (p ∷ r) []) (tags_of_lem party_of (p ∷ r) [] t),
  length-owned_by f (p ∷ r),
)

find_parties-listed :
    (server : ℕ → List Bytes → GetDatasetReply) (owner_of : Bytes → Node) (party_of : Bytes → Bytes)
    (lost : ℕ) (party_datasets : Dict (Dict Bytes)) (requested : Dict PartyNode)
    (l : List (Bytes × Bytes))
    → parse_datasets party_datasets ≡ l
    → All (IsTagged party_of) l
    → lost ≤ retry_max_times
    → ((i : ℕ) (ids : List Bytes) → i < lost → server i ids ≡ not_answered)
    → ((ids : List Bytes) → server lost ids ≡ reply_of owner_of ids)
    → ((id : Bytes) → IsPlain (owner_of id))
    → (d : Dict PartyNode) × (find_parties server party_datasets requested ≡ some d)
      × ((j : Bytes)
          → node_of (lookup j d)
            ≡ or_else (node_of (lookup j requested)) (last_owner j (owned_by owner_of l)))
unfolding find_parties metas_to_party_access_info
find_parties-listed server f party_of lost party_datasets requested [] e t h u v p = (
  requested,
  unfold find_peer_list in ground (arith, e),
  λ j. unfold last_owner in sym (or_else-none (node_of (lookup j requested))),
)
find_parties-listed server f party_of lost party_datasets requested (x ∷ r) e t h u v p =
    let (found, q, l) =
      access_loop-published (owned_by f (x ∷ r)) [] (owned_by-IsPlain f (x ∷ r) p) in
    let s =
      find_peer_list-owned_by server f lost party_of x r h (λ i. u i (ids_of (x ∷ r)))
        (v (ids_of (x ∷ r))) t in
    (
      merge_party_access_info requested found,
      ground (arith, e, s, q),
      λ j.
          (merge_party_access_info_lem requested found).0 j
          ∙ ap (or_else (node_of (lookup j requested)))
              (l j ∙ unfold lookup in or_else-none (last_owner j (owned_by f (x ∷ r)))),
    )

-- Each dataset brings its owner in. Let the meta service answer one of its first four calls, those before
-- it being lost, with one available entry for each id of the call, in their order, that holds the text of
-- the address of the dataset's owner. Let no dataset be used for two parties, and let the ids, addresses
-- and roles of the owners have no colon and their ports fit in an `int`. Then the search succeeds, and the
-- node of a party is the one that the request names, or else the owner of the last dataset with a
-- non-empty id that the request lists for the party, or none.
pub find_parties-named_owner :
    (server : ℕ → List Bytes → GetDatasetReply) (owner_of : Bytes → Node) (party_of : Bytes → Bytes)
    (lost : ℕ) (party_datasets : Dict (Dict Bytes)) (requested : Dict PartyNode)
    → lost ≤ retry_max_times
    → ((i : ℕ) (ids : List Bytes) → i < lost → server i ids ≡ not_answered)
    → ((ids : List Bytes) → server lost ids ≡ reply_of owner_of ids)
    → IsUsedOnce party_of party_datasets
    → ((id : Bytes) → IsPlain (owner_of id))
    → (d : Dict PartyNode) × (find_parties server party_datasets requested ≡ some d)
      × ((j : Bytes)
          → node_of (lookup j d)
            ≡ or_else (node_of (lookup j requested)) (named_owner owner_of j party_datasets))
find_parties-named_owner server f party_of lost party_datasets requested h u v o p =
    let (d, e, l) =
      find_parties-listed server f party_of lost party_datasets requested _ refl
        (parse_datasets-IsTagged party_of party_datasets o) h u v p in
    (
      d,
      e,
      λ j.
          l j
          ∙ ap (or_else (node_of (lookup j requested)))
              (last_owner-parse_datasets f j party_datasets),
    )
