-- ===== src/TraceTree/Forest.antt =====
-- shared/lib/trace_tree.py: what makes a store of nodes a forest, and the changes that keep it one.
use agentic_ops_platform.Prelude.{
  ℕ, zero, suc, ◌+◌, ◌≤◌, ◌<◌, ◌≡◌, refl, sym, subst, ◌==◌, some, List, [], ◌∷◌, ◌++◌, inl, inr,
  arith, Bool-cases, length, length-append, map, count_where, count-append, if◌then◌else◌, ==_iff,
}
use agentic_ops_platform.TraceTree.{Node, node_at, change_at, with_child, append_child}

-- How often `c` stands among the children of a node, and of all nodes.
abbrev pub count_child : ℕ → Node → ℕ
count_child c n = count_where (λ d. d == c) n.children

abbrev pub parents : ℕ → List Node → ℕ
parents c [] = 0
parents c (n ∷ ns) = count_child c n + parents c ns

-- The children of the nodes from the place `i` on stand behind their parents, in front of `total`.
abbrev pub Forward : ℕ → ℕ → List Node → Type 0
Forward i total [] = Unit
Forward i total (n ∷ ns) =
    ((c : ℕ) → 0 < count_child c n → (i < c) × (c < total)) × Forward (suc i) total ns

-- Each child is a node of the store behind its parent, and no node has two parents or is twice a
-- child of one.
pub record IsForest (nodes : List Node) : Type 0 where
  pub ordered : Forward 0 (length nodes) nodes
  pub one_parent : (c : ℕ) → parents c nodes ≤ 1

-- A change at one node gives it no child that it did not have, or not as often.
abbrev pub Shrinks : ℕ → (Node → Node) → List Node → Type 0
Shrinks k f nodes =
    (n : Node) → node_at k nodes ≡ some n → (c : ℕ) → count_child c (f n) ≤ count_child c n

module _ (f : Node → Node) where
  length-change_at : (k : ℕ) (ns : List Node) → length (change_at k f ns) ≡ length ns
  unfolding change_at
  length-change_at k [] = refl
  length-change_at zero (n ∷ ns) = refl
  length-change_at (suc k) (n ∷ ns) = omega (arith, length-change_at k ns)

  Forward-change_at :
      (k i total : ℕ) (ns : List Node)
      → Shrinks k f ns
      → Forward i total ns
      → Forward i total (change_at k f ns)
  unfolding change_at node_at
  Forward-change_at k i total [] shrinks h = h
  Forward-change_at zero i total (n ∷ ns) shrinks h =
      (λ c pos. h.0 c (omega (arith, shrinks n refl c, pos)), h.1)
  Forward-change_at (suc k) i total (n ∷ ns) shrinks h =
      (h.0, Forward-change_at k (suc i) total ns shrinks h.1)

  parents-change_at :
      (k c : ℕ) (ns : List Node) → Shrinks k f ns → parents c (change_at k f ns) ≤ parents c ns
  unfolding change_at node_at
  parents-change_at k c [] shrinks = omega arith
  parents-change_at zero c (n ∷ ns) shrinks = omega (arith, shrinks n refl c)
  parents-change_at (suc k) c (n ∷ ns) shrinks = omega (arith, parents-change_at k c ns shrinks)

  pub change_at-IsForest :
      (k : ℕ) (ns : List Node) → Shrinks k f ns → IsForest ns → IsForest (change_at k f ns)
  change_at-IsForest k ns shrinks s = record {
    ordered =
        subst (λ total. Forward 0 total (change_at k f ns)) (sym (length-change_at k ns))
          (Forward-change_at k 0 (length ns) ns shrinks s.ordered);
    one_parent = λ c. omega (arith, parents-change_at k c ns shrinks, s.one_parent c);
  }

  -- A change of every node that keeps the children.
  Forward-map :
      ((n : Node) → (f n).children ≡ n.children)
      → (i total : ℕ) (ns : List Node) → Forward i total ns
      → Forward i total (map f ns)
  Forward-map keeps i total [] h = h
  Forward-map keeps i total (n ∷ ns) h =
      (λ c pos. h.0 c (rw (keeps n) at pos), Forward-map keeps (suc i) total ns h.1)

  parents-map :
      ((n : Node) → (f n).children ≡ n.children)
      → (c : ℕ) (ns : List Node) → parents c (map f ns) ≡ parents c ns
  parents-map keeps c [] = refl
  parents-map keeps c (n ∷ ns) = rw (keeps n, parents-map keeps c ns) refl

  length-map : (ns : List Node) → length (map f ns) ≡ length ns
  length-map [] = refl
  length-map (n ∷ ns) = omega (arith, length-map ns)

  pub map-IsForest :
      ((n : Node) → (f n).children ≡ n.children)
      → (ns : List Node) → IsForest ns
      → IsForest (map f ns)
  map-IsForest keeps ns s = record {
    ordered =
        subst (λ total. Forward 0 total (map f ns)) (sym (length-map ns))
          (Forward-map keeps 0 (length ns) ns s.ordered);
    one_parent = λ c. rw (parents-map keeps c ns) (s.one_parent c);
  }

-- No node behind the store is a child.
parents-fresh : (i total c : ℕ) (ns : List Node) → Forward i total ns → total ≤ c → parents c ns ≡ 0
parents-fresh i total c [] h le = refl
parents-fresh i total c (n ∷ ns) h le =
    omega (arith, no_child, parents-fresh (suc i) total c ns h.1 le)
  where
    none_here : (m : ℕ) → (0 < m → (i < c) × (c < total)) → m ≡ 0
    none_here zero f = refl
    none_here (suc m) f = absurd (omega (arith, (f (omega arith)).1, le))

    no_child : count_child c n ≡ 0
    no_child = none_here (count_child c n) (h.0 c)

one_more_child :
    (total c : ℕ) (n : Node)
    → count_child c (with_child total n) ≡ count_child c n + (if total == c then 1 else 0)
one_more_child total c n = ground (arith, count-append (λ d. d == c) n.children (total ∷ []))

-- One more node behind the store leaves the children where they are.
Forward-wider : (i total : ℕ) (ns : List Node) → Forward i total ns → Forward i (suc total) ns
Forward-wider i total [] h = tt
Forward-wider i total (n ∷ ns) h =
    (λ c pos. let (l, r) = h.0 c pos in (l, omega (arith, r)), Forward-wider (suc i) total ns h.1)

Forward-added :
    (k i total : ℕ) (ns : List Node)
    → i + length ns ≡ total
    → Forward i total ns
    → Forward i (suc total) (change_at k (with_child total) ns)
unfolding change_at
Forward-added k i total [] e h = tt
Forward-added zero i total (n ∷ ns) e h = (here, Forward-wider (suc i) total ns h.1)
  where
    here : (c : ℕ) → 0 < count_child c (with_child total n) → (i < c) × (c < suc total)
    here c pos = elim (Bool-cases (total == c)) [
      | inl new ↦ let same = (==_iff total c).0 new in (omega (arith, e, same), omega (arith, same))
      | inr old ↦
          let grown = one_more_child total c n in
          let was : 0 < count_child c n = omega (arith, pos, rw old at grown) in
          let (l, r) = h.0 c was in (l, omega (arith, r))
    ]
Forward-added (suc k) i total (n ∷ ns) e h =
    ((Forward-wider i total (n ∷ ns) h).0, Forward-added k (suc i) total ns (omega (arith, e)) h.1)

Forward-snoc :
    (i total : ℕ) (ns : List Node) (n : Node)
    → n.children ≡ []
    → Forward i total ns
    → Forward i total (ns ++ n ∷ [])
Forward-snoc i total [] n childless h = (λ c pos. absurd (omega (arith, rw childless at pos)), tt)
Forward-snoc i total (m ∷ ms) n childless h = (h.0, Forward-snoc (suc i) total ms n childless h.1)

parents-snoc :
    (c : ℕ) (ns : List Node) (n : Node) → n.children ≡ [] → parents c (ns ++ n ∷ []) ≡ parents c ns
parents-snoc c [] n childless = rw childless (omega arith)
parents-snoc c (m ∷ ms) n childless = omega (arith, parents-snoc c ms n childless)

parents-added :
    (k total c : ℕ) (ns : List Node)
    → parents c (change_at k (with_child total) ns) ≤ parents c ns + (if total == c then 1 else 0)
unfolding change_at
parents-added k total c [] = omega arith
parents-added zero total c (n ∷ ns) = omega (arith, one_more_child total c n)
parents-added (suc k) total c (n ∷ ns) = omega (arith, parents-added k total c ns)

pub append_child-IsForest :
    (k : ℕ) (n : Node) (ns : List Node)
    → n.children ≡ []
    → IsForest ns
    → IsForest (append_child k n ns)
unfolding append_child
append_child-IsForest k n ns childless s =
    let total = length ns in
    let grown = change_at k (with_child total) ns in
    let size : length (grown ++ n ∷ []) ≡ suc total =
      omega (arith, length-append grown (n ∷ []), length-change_at (with_child total) k ns) in
    record {
      ordered =
          subst (λ m. Forward 0 m (grown ++ n ∷ [])) (sym size)
            (Forward-snoc 0 (suc total) grown n childless
              (Forward-added k 0 total ns (omega arith) s.ordered));
      one_parent = λ c. elim (Bool-cases (total == c)) [
        | inl new ↦
            let same = (==_iff total c).0 new in
            let none_before = parents-fresh 0 total c ns s.ordered (omega (arith, same)) in
            let added = parents-added k total c ns in
            omega (arith, parents-snoc c grown n childless, rw new at added, none_before)
        | inr old ↦
            let added = parents-added k total c ns in
            omega (arith, parents-snoc c grown n childless, rw old at added, s.one_parent c)
      ];
    }
