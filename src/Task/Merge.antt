-- ===== src/Task/Merge.antt =====
-- src/primihub/task/language/parser.cc: what becomes of the parties of a request and of those found for its
-- datasets.
use primihub.Prelude.{ℕ, ◌+◌, ◌≡◌, refl, sym, ap, ◌∙◌, Option, none, some, [], ◌∷◌, arith, Bytes}
use primihub.Task.{PartyNode, put_new, add_requested, add_found, merge_party_access_info, refill}
use primihub.Task.Names.{
  or_else, or_else-none, IsSorted, put_new-IsSorted, lookup-put_new, IsBelow, sorted_ext,
}
use primihub.Common.{Node}
use primihub.Prelude.Dict.{lookup, Dict}

abbrev pub node_of : Option PartyNode → Option Node
node_of none = none
node_of (some p) = some p.node_info

add_requested_lem :
    (r : Dict PartyNode) (m : Dict Node)
    → IsSorted m
    → IsSorted (add_requested r m)
      × ((j : Bytes) → lookup j (add_requested r m) ≡ or_else (lookup j m) (node_of (lookup j r)))
unfolding add_requested lookup
add_requested_lem [] m s = (s, λ j. sym (or_else-none (lookup j m)))
add_requested_lem ((k, p) ∷ r) m s =
    let ih = add_requested_lem r (put_new k p.node_info m) (put_new-IsSorted k p.node_info m s) in
    (ih.0, λ j. ground (arith, ih.1 j, lookup-put_new k j p.node_info m s))

add_found_lem :
    (f m : Dict Node)
    → IsSorted m
    → IsSorted (add_found f m)
      × ((j : Bytes) → lookup j (add_found f m) ≡ or_else (lookup j m) (lookup j f))
unfolding add_found lookup
add_found_lem [] m s = (s, λ j. sym (or_else-none (lookup j m)))
add_found_lem ((k, n) ∷ r) m s =
    let ih = add_found_lem r (put_new k n m) (put_new-IsSorted k n m s) in
    (ih.0, λ j. ground (arith, ih.1 j, lookup-put_new k j n m s))

-- The parties have the ids from this one on, in the order of their names.
abbrev IsNumbered : ℕ → Dict PartyNode → Type 0
IsNumbered i [] = Unit
IsNumbered i ((k, p) ∷ m) = (p.party_id ≡ i) × IsNumbered (i + 1) m

refill-IsNumbered : (i : ℕ) (m : Dict Node) → IsNumbered i (refill i m)
unfolding refill
refill-IsNumbered i [] = tt
refill-IsNumbered i ((k, n) ∷ m) = (refl, refill-IsNumbered (i + 1) m)

refill-IsBelow : (k : Bytes) (i : ℕ) (m : Dict Node) → IsBelow k m → IsBelow k (refill i m)
unfolding refill
refill-IsBelow k i [] b = tt
refill-IsBelow k i ((j, n) ∷ m) b = (b.0, refill-IsBelow k (i + 1) m b.1)

refill-IsSorted : (i : ℕ) (m : Dict Node) → IsSorted m → IsSorted (refill i m)
unfolding refill
refill-IsSorted i [] s = tt
refill-IsSorted i ((j, n) ∷ m) s = (refill-IsBelow j (i + 1) m s.0, refill-IsSorted (i + 1) m s.1)

lookup-refill : (j : Bytes) (i : ℕ) (m : Dict Node) → node_of (lookup j (refill i m)) ≡ lookup j m
unfolding refill lookup
lookup-refill j i [] = refl
lookup-refill j i ((k, n) ∷ m) = ground (arith, lookup-refill j (i + 1) m)

-- The parties in the order of their names, before they are numbered.
parties : Dict PartyNode → Dict Node → Dict Node
parties r f = add_found f (add_requested r [])

parties_lem :
    (r : Dict PartyNode) (f : Dict Node)
    → IsSorted (parties r f)
      × ((j : Bytes) → lookup j (parties r f) ≡ or_else (node_of (lookup j r)) (lookup j f))
unfolding parties
parties_lem r f =
    let a = add_requested_lem r [] tt in
    let b = add_found_lem f (add_requested r []) a.0 in
    (
      b.0,
      λ j. b.1 j ∙ ap (λ (o : Option Node). or_else o (lookup j f)) (a.1 j ∙ unfold lookup in refl),
    )

-- The merged parties are those of the request and those found for its datasets, each name once; where both
-- have a name, the request's node counts. The parties stand in the order of their names and are
-- numbered in that order from 0.
pub merge_party_access_info_lem :
    (r : Dict PartyNode) (f : Dict Node)
    → ((j : Bytes)
        → node_of (lookup j (merge_party_access_info r f))
          ≡ or_else (node_of (lookup j r)) (lookup j f))
      × IsSorted (merge_party_access_info r f)
      × IsNumbered 0 (merge_party_access_info r f)
unfolding merge_party_access_info parties
merge_party_access_info_lem r f =
    let p = parties_lem r f in
    (
      λ j. lookup-refill j 0 (parties r f) ∙ p.1 j,
      refill-IsSorted 0 (parties r f) p.0,
      refill-IsNumbered 0 (parties r f),
    )

-- The ids do not depend on the order in which the maps give their entries, nor on the ids that the
-- entries had: two requests with the same node for each name are merged into the same parties with the
-- same ids, whichever nodes do it.
pub merge_party_access_info_agree :
    (r s : Dict PartyNode) (f g : Dict Node)
    → ((j : Bytes) → node_of (lookup j r) ≡ node_of (lookup j s))
    → ((j : Bytes) → lookup j f ≡ lookup j g)
    → merge_party_access_info r f ≡ merge_party_access_info s g
unfolding merge_party_access_info parties
merge_party_access_info_agree r s f g h k =
    let p = parties_lem r f in
    let q = parties_lem s g in
    ap (refill 0) (
      sorted_ext (parties r f) (parties s g) p.0 q.0 (λ j.
        p.1 j
        ∙ ap (λ (o : Option Node). or_else o (lookup j f)) (h j)
        ∙ ap (or_else (node_of (lookup j s))) (k j)
        ∙ sym (q.1 j)))
