-- ===== src/Task/Named.antt =====
-- src/primihub/task/language/proto_parser.cc and src/primihub/task/semantic/parser.cc: the datasets of a
-- request, their owners and their parties.
use primihub.Prelude.{
  ◌==◌, suc, ◌≡◌, refl, sym, ap, ◌∙◌, true, Option, none, some, List, [], ◌∷◌, ◌++◌, map, arith,
  if◌then◌else◌, Bytes, ==_iff, length, All, All-append,
}
use primihub.Common.RoundTrip.{from_string-to_string}
use primihub.Task.Names.{or_else, or_else-none}
use primihub.Task.Schedule.{access_info_of, access_loop}
use primihub.Common.{Node, to_string, from_string, default_node, node}
use primihub.Prelude.Dict.{Dict, lookup, assign, lookup-assign, lookup-assign_self}
use primihub.Grpc.Context.{IsPlain}
use primihub.Task.Datasets.{
  DatasetMeta, parse_datasets, GetDatasetReply, datasets_of, meta_list, tags_of, answered, ids_of,
  DatasetMeta, parse_datasets,
}

-- A dataset, its owner, and the party for which it is used.
pub record Owned : Type 0 where
  pub dataset : Bytes
  pub owner : Node
  pub party : Bytes

-- The metadata that the owner publishes: its address in text form.
abbrev entry_of : Bytes → Node → DatasetMeta
entry_of id owner = record { id = id; server_info = to_string owner }

abbrev pub published : Owned → DatasetMeta × Bytes
published o = (entry_of o.dataset o.owner, o.party)

-- The reply of a server on which every dataset is published by its owner: one entry for each id.
abbrev pub reply_of : (Bytes → Node) → List Bytes → GetDatasetReply
reply_of owner_of ids =
    answered (map (λ id. record { available = true; meta_info = entry_of id (owner_of id) }) ids)

-- The owner of the last dataset of a party.
unfoldable pub last_owner : Bytes → List Owned → Option Node
last_owner k [] = none
last_owner k (o ∷ r) = or_else (last_owner k r) (if k == o.party then some o.owner else none)

-- The owner of the last dataset with an id, in the datasets by index that the request gives a party.
unfoldable last_named : (Bytes → Node) → Dict Bytes → Option Node
last_named owner_of [] = none
last_named owner_of ((index, []) ∷ r) = last_named owner_of r
last_named owner_of ((index, b ∷ s) ∷ r) = or_else (last_named owner_of r) (some (owner_of (b ∷ s)))

-- The same for a party of the request.
unfoldable pub named_owner : (Bytes → Node) → Bytes → Dict (Dict Bytes) → Option Node
unfolding last_named
named_owner owner_of k [] = none
named_owner owner_of k ((party_name, d) ∷ r) =
    or_else (named_owner owner_of k r) (if k == party_name then last_named owner_of d else none)

-- An empty id is no dataset; any other one is used for the party that `party_of` tells.
abbrev IsUsedFor : (Bytes → Bytes) → Bytes → Bytes × Bytes → Type 0
IsUsedFor party_of party_name (index, []) = Unit
IsUsedFor party_of party_name (index, b ∷ s) = party_of (b ∷ s) ≡ party_name

-- No dataset is used for two parties.
abbrev pub IsUsedOnce : (Bytes → Bytes) → Dict (Dict Bytes) → Type 0
IsUsedOnce party_of party_datasets =
    All (λ (e : Bytes × Dict Bytes). All (IsUsedFor party_of e.0) e.1) party_datasets

pub access_loop-published :
    (os : List Owned) (m : Dict Node)
    → All (λ (o : Owned). IsPlain o.owner) os
    → (d : Dict Node) × (access_loop (map published os) m ≡ some d)
      × ((j : Bytes) → lookup j d ≡ or_else (last_owner j os) (lookup j m))
unfolding access_loop access_info_of last_owner
access_loop-published [] m p = (m, refl, λ j. refl)
access_loop-published (o ∷ r) m p =
    let e : from_string (to_string o.owner) default_node ≡ node o.owner =
      ground (arith, from_string-to_string o.owner default_node p.0.address, p.0.small_port) in
    let (d, q, l) = access_loop-published r (assign o.party o.owner m) p.1 in
    (d, ground (arith, e, q), λ j. ground (arith, l j, lookup-assign o.party j o.owner m))

abbrev pub IsTagged : (Bytes → Bytes) → Bytes × Bytes → Type 0
IsTagged party_of x = party_of x.0 ≡ x.1

datasets_of-IsTagged :
    (f : Bytes → Bytes) (p : Bytes) (d : Dict Bytes)
    → All (IsUsedFor f p) d
    → All (IsTagged f) (datasets_of p d)
unfolding datasets_of
datasets_of-IsTagged f p [] h = h
datasets_of-IsTagged f p ((i, []) ∷ r) h = datasets_of-IsTagged f p r h.1
datasets_of-IsTagged f p ((i, b ∷ s) ∷ r) h = (h.0, datasets_of-IsTagged f p r h.1)

pub parse_datasets-IsTagged :
    (f : Bytes → Bytes) (m : Dict (Dict Bytes))
    → IsUsedOnce f m
    → All (IsTagged f) (parse_datasets m)
unfolding parse_datasets
parse_datasets-IsTagged f [] h = h
parse_datasets-IsTagged f ((p, d) ∷ r) h =
    All-append (IsTagged f) (datasets_of p d) (parse_datasets r) (datasets_of-IsTagged f p d h.0)
      (parse_datasets-IsTagged f r h.1)

tags_of-kept :
    (f : Bytes → Bytes) (l : List (Bytes × Bytes)) (m : Dict Bytes) (j : Bytes)
    → All (IsTagged f) l
    → lookup j m ≡ some (f j)
    → lookup j (tags_of l m) ≡ some (f j)
unfolding tags_of
tags_of-kept f [] m j h e = e
tags_of-kept f ((i, t) ∷ r) m j h e =
    tags_of-kept f r (assign i t m) j h.1
      (ground (arith, h.0, e, lookup-assign i j t m, ==_iff j i))

pub tags_of_lem :
    (f : Bytes → Bytes) (l : List (Bytes × Bytes)) (m : Dict Bytes)
    → All (IsTagged f) l
    → All (λ (x : Bytes × Bytes). lookup x.0 (tags_of l m) ≡ some x.1) l
unfolding tags_of
tags_of_lem f [] m h = h
tags_of_lem f ((i, t) ∷ r) m h = (
  tags_of-kept f r (assign i t m) i h.1 (lookup-assign_self i t m ∙ ap some (sym h.0))
      ∙ ap some h.0,
  tags_of_lem f r (assign i t m) h.1,
)

abbrev pub owned_by : (Bytes → Node) → List (Bytes × Bytes) → List Owned
owned_by owner_of [] = []
owned_by owner_of ((id, party_name) ∷ r) =
    record { dataset = id; owner = owner_of id; party = party_name } ∷ owned_by owner_of r

pub meta_list-owned_by :
    (owner_of : Bytes → Node) (l : List (Bytes × Bytes)) (t : Dict Bytes)
    → All (λ (x : Bytes × Bytes). lookup x.0 t ≡ some x.1) l
    → meta_list t
        (map (λ id. record { available = true; meta_info = entry_of id (owner_of id) }) (ids_of l))
      ≡ map published (owned_by owner_of l)
unfolding meta_list
meta_list-owned_by f [] t h = refl
meta_list-owned_by f ((i, p) ∷ r) t h = ground (arith, h.0, meta_list-owned_by f r t h.1)

pub length-owned_by :
    (f : Bytes → Node) (l : List (Bytes × Bytes)) → length (map published (owned_by f l)) ≡ length l
length-owned_by f [] = refl
length-owned_by f (x ∷ r) = ap suc (length-owned_by f r)

pub owned_by-IsPlain :
    (f : Bytes → Node) (l : List (Bytes × Bytes))
    → ((id : Bytes) → IsPlain (f id))
    → All (λ (o : Owned). IsPlain o.owner) (owned_by f l)
owned_by-IsPlain f [] h = tt
owned_by-IsPlain f (x ∷ r) h = (h x.0, owned_by-IsPlain f r h)

or_else_assoc : (a b c : Option Node) → or_else (or_else a b) c ≡ or_else a (or_else b c)
or_else_assoc none b c = refl
or_else_assoc (some n) b c = refl

last_owner-datasets_of :
    (f : Bytes → Node) (k p : Bytes) (d : Dict Bytes) (l : List (Bytes × Bytes))
    → last_owner k (owned_by f (datasets_of p d ++ l))
      ≡ or_else (last_owner k (owned_by f l)) (if k == p then last_named f d else none)
unfolding datasets_of last_owner last_named
last_owner-datasets_of f k p [] l = ground (arith, or_else-none (last_owner k (owned_by f l)))
last_owner-datasets_of f k p ((i, []) ∷ r) l = last_owner-datasets_of f k p r l
last_owner-datasets_of f k p ((i, b ∷ s) ∷ r) l = ground (
  arith,
  last_owner-datasets_of f k p r l,
  or_else_assoc (last_owner k (owned_by f l)) (last_named f r) (some (f (b ∷ s))),
  or_else-none (last_owner k (owned_by f l)),
)

pub last_owner-parse_datasets :
    (f : Bytes → Node) (k : Bytes) (m : Dict (Dict Bytes))
    → last_owner k (owned_by f (parse_datasets m)) ≡ named_owner f k m
unfolding parse_datasets last_owner named_owner
last_owner-parse_datasets f k [] = refl
last_owner-parse_datasets f k ((p, d) ∷ r) =
    ground
      (arith, last_owner-datasets_of f k p d (parse_datasets r), last_owner-parse_datasets f k r)
