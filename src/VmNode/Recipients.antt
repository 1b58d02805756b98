-- ===== src/VmNode/Recipients.antt =====
-- src/primihub/node/node_impl.cc, the thread of `DispatchTask`: whom it tells to kill a failed task.
use primihub.Prelude.{
  ◌==◌, ◌≡◌, refl, inl, inr, false, ◌||◌, List, [], ◌∷◌, ◌++◌, arith, Bool-cases, Bytes, ==_iff,
  has,
}
use primihub.Common.{Node, to_string}
use primihub.VmNode.Dispatch.{
  TaskConfig, get_all_parties, collect_party, collect_all, recv_cmd_party,
}

-- No text stands twice.
abbrev pub AllDistinct : List Bytes → Type 0
AllDistinct [] = Unit
AllDistinct (x ∷ xs) = (has x xs ≡ false) × AllDistinct xs

abbrev pub names : List Node → List Bytes
names [] = []
names (n ∷ ns) = to_string n ∷ names ns

has-names-append :
    (s : Bytes) (xs ys : List Node)
    → has s (names (xs ++ ys)) ≡ (has s (names xs) || has s (names ys))
has-names-append s [] ys = refl
has-names-append s (x ∷ xs) ys = ground (arith, has-names-append s xs ys)

names-snoc-AllDistinct :
    (xs : List Node) (x : Node)
    → AllDistinct (names xs)
    → has (to_string x) (names xs) ≡ false
    → AllDistinct (names (xs ++ x ∷ []))
names-snoc-AllDistinct [] x d h = (refl, tt)
names-snoc-AllDistinct (y ∷ ys) x d h = (
  ground (
    arith,
    d.0,
    h,
    has-names-append (to_string y) ys (x ∷ []),
    ==_iff (to_string x) (to_string y),
    ==_iff (to_string y) (to_string x),
  ),
  names-snoc-AllDistinct ys x d.1 (ground (arith, h)),
)

-- The filter holds the names of the nodes so far, and these are distinct.
record IsCollected (acc : List Bytes × List Node) : Type 0 where
  same : (s : Bytes) → has s acc.0 ≡ has s (names acc.1)
  distinct : AllDistinct (names acc.1)

collect_party-IsCollected :
    (p : Node) (f : List Bytes) (out : List Node)
    → IsCollected (f, out)
    → IsCollected (collect_party p (f, out))
      × ((s : Bytes)
          → has s (names (collect_party p (f, out)).1) ≡ (has s (names out) || s == to_string p))
unfolding collect_party
collect_party-IsCollected p f out v = elim (Bool-cases (has (to_string p) f)) [
  | inl e ↦ rw e (v, λ s. ground (arith, e, v.same (to_string p), ==_iff s (to_string p)))
  | inr e ↦ rw e (
    record {
      same = λ s. ground (arith, v.same s, has-names-append s out (p ∷ []));
      distinct = names-snoc-AllDistinct out p v.distinct (ground (arith, e, v.same (to_string p)));
    },
    λ s. ground (arith, has-names-append s out (p ∷ [])),
  )
]

collect_all-IsCollected :
    (ps : List Node) (f : List Bytes) (out : List Node)
    → IsCollected (f, out)
    → IsCollected (collect_all ps (f, out))
      × ((s : Bytes)
          → has s (names (collect_all ps (f, out)).1) ≡ (has s (names out) || has s (names ps)))
unfolding collect_all
collect_all-IsCollected [] f out v = (v, λ s. ground arith)
collect_all-IsCollected (p ∷ ps) f out v =
    let (w, e) = collect_party-IsCollected p f out v in
    let (u, g) =
      collect_all-IsCollected ps (collect_party p (f, out)).0 (collect_party p (f, out)).1 w in
    (u, λ s. ground (arith, g s, e s))

-- The nodes that are told to kill a failed task are told once each, and they are, by their addresses,
-- exactly the parties of the task's configuration and those it was dispatched to.
pub recv_cmd_party_lem :
    (c : TaskConfig) (parties : List Node)
    → AllDistinct (names (recv_cmd_party c parties))
      × ((s : Bytes)
          → has s (names (recv_cmd_party c parties)) ≡ has s (names (get_all_parties c ++ parties)))
unfolding recv_cmd_party
recv_cmd_party_lem c parties =
    let (v, e) =
      collect_all-IsCollected (get_all_parties c) [] []
        (record { same = λ s. refl; distinct = tt }) in
    let (w, g) = collect_all-IsCollected parties _ _ v in
    (w.distinct, λ s. ground (arith, g s, e s, has-names-append s (get_all_parties c) parties))
