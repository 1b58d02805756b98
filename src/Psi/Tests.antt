-- ===== src/Psi/Tests.antt =====
-- Runs and instances for src/primihub/kernel/psi/operator/base_psi.cc.
use primihub.Prelude.{
  ◌==◌, ℕ, zero, suc, ◌+◌, ◌≡◌, refl, ap, ◌∙◌, ◌⊎◌, inl, inr, Bool, true, false, Option, none, some,
  List, [], ◌∷◌, ◌++◌, arith, if◌then◌else◌, Bytes, codes, ne_of_==, has, All, Retcode, success,
  fail,
}
use primihub.Common.{Node, default_node, party_client, party_server, is_client}
use primihub.Psi.{Options, execute, finished, ignore_result}
use primihub.Psi.Exact.{parse_exact}
use primihub.Psi.Message.{parse, encode, over_read, parsed, Fits}
use mathlib.Core.List.{Perm}
use primihub.Prelude.Dict.{Dict}
use primihub.Psi.Result.{
  Block, blocks, get_result, intersection, pick, block_size, difference, is_absent, picked,
}
use primihub.Link.{Channel}
use primihub.Psi.Pick.{get_result-intersection}
use primihub.Psi.Sync.{Gets, execute_sync}
use mathlib.Core.List.Perm
use primihub.Prelude.{
  ◌==◌, ℕ, zero, suc, ◌+◌, ◌≡◌, refl, ap, ◌∙◌, ◌⊎◌, inl, inr, Bool, true, false, Option, none, some,
  List, [], ◌∷◌, ◌++◌, arith, if◌then◌else◌, Bytes, codes, ne_of_==, has, All, Retcode, success,
  fail,
}
use primihub.Prelude.Texts.{put_list, get_list, get_list-put_list}
use primihub.Psi.Ecdh.{
  Structure, gcs, bloom_filter, not_set, ServerSetup, InitParam, Library, Step, done, run_ecdh,
}
use primihub.Psi.EcdhExact.{Matches, not_in, run_ecdh-difference, run_ecdh-intersection}
use primihub.Psi.Tee.{hash_data, finish_provider}
use primihub.Psi.TeeExact.{only_in, finish_provider-hashes}

abbrev two_items : List Bytes
two_items = codes "ab" ∷ codes "c" ∷ []

message : parse (encode two_items) ≡ parsed two_items
unfolding parse encode
message = refl

-- Three bytes are no message: the receiver reads eight.
short_message : parse (1 ∷ 2 ∷ 3 ∷ []) ≡ over_read
unfolding parse
short_message = refl

parse_exact_example :
    ((xs : List Bytes) × (parse (1 ∷ 2 ∷ []) ≡ parsed xs) × (encode xs ≡ 1 ∷ 2 ∷ []) × All Fits xs)
    ⊎ ((parse (1 ∷ 2 ∷ []) ≡ over_read)
        × ¬ ((xs : List Bytes) × All Fits xs × (encode xs ≡ 1 ∷ 2 ∷ [])))
parse_exact_example = parse_exact (1 ∷ 2 ∷ []) (omega arith)

abbrev input : List Bytes
input = codes "x" ∷ codes "y" ∷ codes "z" ∷ []

abbrev one_block : List Block
one_block = (0, 2) ∷ []

one_block-Perm : Perm (blocks block_size 2) one_block
unfolding blocks
one_block-Perm = Perm.refl _

get_result-intersection_example :
    (xs : List Bytes) × (pick input (2 ∷ 0 ∷ []) ≡ some xs)
    × (get_result intersection one_block input (2 ∷ 0 ∷ []) ≡ picked xs)
get_result-intersection_example =
    get_result-intersection input (2 ∷ 0 ∷ []) one_block (omega arith) one_block-Perm

picked_items :
    get_result intersection one_block input (2 ∷ 0 ∷ []) ≡ picked (codes "z" ∷ codes "x" ∷ [])
unfolding get_result
picked_items = refl

other_items : get_result difference [] input (2 ∷ 0 ∷ []) ≡ picked (codes "y" ∷ [])
unfolding get_result
other_items = refl

-- A channel that gets this from its peer, and can send nothing.
abbrev channel_with : Bytes → Node → Channel
channel_with s n = record {
  send = λ k m. fail;
  send_recv_peer = λ k m. (fail, []);
  forward_recv = λ k. s;
}

abbrev parties : Dict Node
parties = (party_client, default_node) ∷ (party_server, record default_node { port = 9 }) ∷ []

abbrev options_of : Bytes → Options
options_of self = record {
  party_info = parties;
  self_party = self;
  psi_result_type = intersection;
  proxy_node = default_node;
}

execute_sync_example :
    ((sent : List (Node × Bytes × Retcode)) × (execute
          (λ i. (success, i))
          (channel_with [])
          (options_of party_client)
          two_items
          true
        ≡ finished success two_items sent)
      × Gets (record default_node { port = 9 }) (encode two_items) sent)
    × (execute
          (λ i. (success, []))
          (channel_with (encode two_items))
          (options_of party_server)
          []
          true
        ≡ finished success two_items [])
execute_sync_example =
    execute_sync (λ i. (success, i)) (channel_with []) (options_of party_client) two_items two_items
      party_server _ refl (omega arith) (unfold is_client ◌==◌ in refl) (inr (inl (refl, refl)))
      (ne_of_== _ _ (unfold ◌==◌ in refl)) (ne_of_== _ _ (unfold ◌==◌ in refl)) (λ i. (success, []))
      (channel_with (encode two_items)) (options_of party_server) [] refl
      (unfold is_client ◌==◌ in refl) (unfold ignore_result ◌==◌ in refl) refl

-- A peer that hears nothing takes the result for an empty one.

abbrev put_structure : Structure → Bytes
put_structure (gcs div hash_range) = 0 ∷ div ∷ hash_range ∷ []
put_structure (bloom_filter n) = 1 ∷ n ∷ []
put_structure not_set = []

abbrev get_structure : Bytes → Structure
get_structure (zero ∷ div ∷ hash_range ∷ r) = gcs div hash_range
get_structure (suc k ∷ n ∷ r) = bloom_filter n
get_structure _ = not_set

get_structure-put_structure : (s : Structure) → get_structure (put_structure s) ≡ s
get_structure-put_structure (gcs div hash_range) = refl
get_structure-put_structure (bloom_filter n) = refl
get_structure-put_structure not_set = refl

abbrev put_setup : ServerSetup → Bytes
put_setup s = put_list (s.bits ∷ put_structure s.structure ∷ [])

abbrev setup_of : List Bytes → ServerSetup
setup_of (b ∷ s ∷ r) = record { bits = b; structure = get_structure s }
setup_of _ = record { bits = []; structure = not_set }

get_setup-put_setup : (s : ServerSetup) → setup_of (get_list (put_setup s)) ≡ s
get_setup-put_setup s =
    ap setup_of (get_list-put_list (s.bits ∷ put_structure s.structure ∷ []))
    ∙ ap (λ (t : Structure). record { bits = s.bits; structure = t })
        (get_structure-put_structure s.structure)

abbrev size_text : Option ℕ → ℕ
size_text none = 0
size_text (some n) = suc n

abbrev text_size : ℕ → Option ℕ
text_size zero = none
text_size (suc n) = some n

abbrev flag_text : Option Bool → ℕ
flag_text none = 0
flag_text (some false) = 1
flag_text (some true) = 2

abbrev text_flag : ℕ → Option Bool
text_flag zero = none
text_flag (suc zero) = some false
text_flag (suc (suc n)) = some true

abbrev put_param : InitParam → Bytes
put_param p = size_text p.dataset_size ∷ flag_text p.reveal_intersection ∷ []

abbrev get_param : Bytes → InitParam
get_param (n ∷ f ∷ r) = record { dataset_size = text_size n; reveal_intersection = text_flag f }
get_param _ = record { dataset_size = none; reveal_intersection = none }

text_size-size_text : (o : Option ℕ) → text_size (size_text o) ≡ o
text_size-size_text none = refl
text_size-size_text (some n) = refl

text_flag-flag_text : (o : Option Bool) → text_flag (flag_text o) ≡ o
text_flag-flag_text none = refl
text_flag-flag_text (some false) = refl
text_flag-flag_text (some true) = refl

get_param-put_param : (p : InitParam) → get_param (put_param p) ≡ p
get_param-put_param p =
    rw (text_size-size_text p.dataset_size, text_flag-flag_text p.reveal_intersection) refl

-- The places of the items that are in the other list, from this place on.
abbrev places : ℕ → List Bytes → List Bytes → List ℕ
places i ys [] = []
places i ys (x ∷ xs) = if has x ys then i ∷ places (i + 1) ys xs else places (i + 1) ys xs

-- A library without secrets: the request is the client's list, and the response is the server's.
abbrev plain : Library (List Bytes) (List Bytes) (List Bytes)
plain = record {
  create_request = λ c xs. xs;
  create_setup = λ s n ys. record { bits = []; structure = gcs 1 2 };
  process_request = λ s q. s;
  find_matches = λ c setup r. places 0 r c;
  put_param = put_param;
  get_param = get_param;
  get_put_param = get_param-put_param;
  put_request = put_list;
  get_request = get_list;
  get_put_request = get_list-put_list;
  put_response = put_list;
  get_response = get_list;
  get_put_response = get_list-put_list;
  put_setup = put_setup;
  get_setup = λ s. setup_of (get_list s);
  get_put_setup = get_setup-put_setup;
}

abbrev ours : List Bytes
ours = codes "a" ∷ codes "b" ∷ codes "c" ∷ []

abbrev theirs : List Bytes
theirs = codes "c" ∷ codes "a" ∷ []

is_set : gcs 1 2 ≡ not_set → ⊥
is_set e = cc e

ours-Matches : Matches ours theirs (0 ∷ 2 ∷ [])
unfolding is_absent ◌==◌
ours-Matches zero x e = ground (arith, e)
ours-Matches (suc zero) x e = ground (arith, e)
ours-Matches (suc (suc zero)) x e = ground (arith, e)
ours-Matches (suc (suc (suc i))) x e = ground (arith, e)

run_ecdh-difference_example :
    run_ecdh plain difference ours theirs ours theirs ≡ done (codes "b" ∷ [])
unfolding ◌==◌ not_in
run_ecdh-difference_example =
    run_ecdh-difference plain ours theirs (codes "a") (codes "c") (codes "b" ∷ codes "c" ∷ [])
      (codes "a" ∷ []) is_set (omega arith) ours-Matches

run_ecdh-intersection_example :
    (zs : List Bytes) × (run_ecdh plain intersection ours theirs ours theirs ≡ done zs)
    × Perm (zs ++ codes "b" ∷ []) ours
unfolding ◌==◌ not_in is_absent
run_ecdh-intersection_example =
    run_ecdh-intersection plain ours theirs (codes "a") (codes "c") (codes "b" ∷ codes "c" ∷ [])
      (codes "a" ∷ []) is_set (omega arith) ours-Matches (omega arith) (refl, (refl, tt))

finish_provider-hashes_example :
    (t : Dict Bytes) × (hash_data true (λ b. b) (codes "a" ∷ codes "b" ∷ []) ≡ some t)
    × (finish_provider true (success, 7 ∷ []) (λ b. some (codes "c" ++ codes "a")) t
        ≡ Step.done (codes "a" ∷ []))
unfolding ◌==◌ only_in
finish_provider-hashes_example =
    finish_provider-hashes (λ b. b) 0 (codes "a") (codes "c") (codes "b" ∷ []) (codes "a" ∷ [])
      (λ b. some (codes "c" ++ codes "a")) (7 ∷ []) (refl, (refl, tt)) (refl, (refl, tt))
      ((refl, (refl, tt)), ((refl, (refl, tt)), ((refl, (refl, tt)), tt))) refl
