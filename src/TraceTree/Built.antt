-- ===== src/TraceTree/Built.antt =====
-- shared/lib/trace_tree.py: the tree that is built is a forest.
use agentic_ops_platform.Prelude.{
  ℕ, ◌≤◌, ◌<◌, ◌≡◌, refl, subst, Bool, not, ◌&&◌, ◌==◌, ==_iff, String, Option, none, some, List,
  [], ◌∷◌, ◌++◌, inl, inr, arith, Bool-cases, str_eq, count_where, count-append, select_where,
  count-select_where_le,
}
use agentic_ops_platform.TraceTree.{Table, Node, Builder, node_at, look_up}
use agentic_ops_platform.TraceTree.Previews.{Readers}
use agentic_ops_platform.TraceTree.Messages.{nonblank}
use agentic_ops_platform.TraceTree.Turns.{
  child_or, child_where, children_in, children_of, is_return,
}
use agentic_ops_platform.TraceTree.Forest.{IsForest, change_at-IsForest, map-IsForest}
use agentic_ops_platform.TraceTree.Grows.{Wooded}
use agentic_ops_platform.TraceTree.Events.{Event, run_events}
use agentic_ops_platform.TraceTree.Passes.{
  keeps_child, body_at, reordered, reorder_by, reorder_returns, called, with_recipient, renamed,
  replace_recipient_ids, empty_builder, build_trace_tree,
}
use agentic_ops_platform.TraceTree.Played.{run_events-Wooded}

child_or-mem :
    (p : Node → Bool) (c : ℕ) (cs : List ℕ) (o : Option Node) (rest : Option ℕ) (r : ℕ)
    → (rest ≡ some r → 0 < count_where (λ d. d == r) cs)
    → child_or p c o rest ≡ some r
    → 0 < count_where (λ d. d == r) (c ∷ cs)
unfolding child_or
child_or-mem p c cs none rest r later e = ground (arith, later e)
child_or-mem p c cs (some n) rest r later e = elim (Bool-cases (p n)) [
  | inl hit ↦ (let same : c ≡ r = cc (rw hit at e) in ground (arith, ==_iff c r))
  | inr miss ↦ ground (arith, later (rw miss at e))
]

child_where-mem :
    (p : Node → Bool) (cs : List ℕ) (nodes : List Node) (r : ℕ)
    → child_where p cs nodes ≡ some r
    → 0 < count_where (λ d. d == r) cs
unfolding child_where
child_where-mem p [] nodes r h = cc
child_where-mem p (c ∷ cs) nodes r h =
    child_or-mem p c cs (node_at c nodes) (child_where p cs nodes) r (child_where-mem p cs nodes r)
      h

count-without :
    (r : ℕ) (q : ℕ → Bool) (cs : List ℕ)
    → count_where (λ d. d == r) (select_where (λ c. not (c == r) && q c) cs) ≡ 0
count-without r q [] = refl
count-without r q (c ∷ cs) = ground (arith, count-without r q cs)

-- The findings were a child already.
reordered-count :
    (r c : ℕ) (q : ℕ → Bool) (cs : List ℕ)
    → 0 < count_where (λ d. d == r) cs
    → count_where (λ d. d == c) (select_where (λ d. not (d == r) && q d) cs ++ r ∷ [])
      ≤ count_where (λ d. d == c) cs
reordered-count r c q cs pos =
    let kept = select_where (λ d. not (d == r) && q d) cs in
    let split = count-append (λ d. d == c) kept (r ∷ []) in
    elim (Bool-cases (r == c)) [
      | inl same ↦
          let none_left = count-without r q cs in
          let e = (==_iff r c).0 same in
          rw (← e) (ground (arith, count-append (λ d. d == r) kept (r ∷ [])))
      | inr other ↦
          let le = count-select_where_le (λ d. d == c) (λ d. not (d == r) && q d) cs in
          rw split (ground arith)
    ]

reorder_by-Wooded :
    (k : ℕ) (o : Option ℕ) (t : Builder)
    → child_where is_return (children_of k t.nodes) t.nodes ≡ o
    → Wooded t
    → Wooded (reorder_by k o t)
unfolding reorder_by
reorder_by-Wooded k none t found h = h
reorder_by-Wooded k (some r) t found h = record {
  forest =
      change_at-IsForest (reordered r t.nodes) k t.nodes
        (λ n there c. reordered-count r c (keeps_child (body_at r t.nodes) t.nodes) n.children (
          subst (λ o. 0 < count_where (λ d. d == r) (children_in o)) there
            (child_where-mem is_return (children_of k t.nodes) t.nodes r found)))
        h.forest;
}

reorder_returns-Wooded :
    (subagents : Table ℕ) (t : Builder) → Wooded t → Wooded (reorder_returns subagents t)
unfolding reorder_returns
reorder_returns-Wooded [] t h = h
reorder_returns-Wooded ((tool_id, k) ∷ rest) t h =
    let o = child_where is_return (children_of k t.nodes) t.nodes in
    reorder_returns-Wooded rest (reorder_by k o t) (reorder_by-Wooded k o t refl h)

called-children :
    (rd : Readers) (n : Node) (id : String) (o : Option String)
    → (called rd n id o).children ≡ n.children
called-children rd n id none = refl
called-children rd n id (some name) = refl

with_recipient-children :
    (rd : Readers) (names : Table String) (n : Node) (o : Option String)
    → (with_recipient rd names n o).children ≡ n.children
with_recipient-children rd names n none = refl
with_recipient-children rd names n (some id) = called-children rd n id (nonblank (look_up id names))

renamed-children :
    (rd : Readers) (names : Table String) (n : Node) → (renamed rd names n).children ≡ n.children
unfolding renamed
renamed-children rd names n = elim (Bool-cases (str_eq n.kind "messaging")) [
  | inl e ↦ rw e (with_recipient-children rd names n (look_up "recipient_id" n.meta))
  | inr e ↦ rw e refl
]

empty_builder-Wooded : Wooded empty_builder
empty_builder-Wooded = record {
  forest = record {
    ordered = (λ c pos. absurd (omega (arith, pos)), tt);
    one_parent = λ c. omega arith;
  };
}

-- For every list of events, and whatever the readers of texts answer, the nodes that are built are a
-- forest: each child is a node of the store and stands behind its parent, so that the walk from the
-- root ends, and no node has two parents or is a child of one twice.
pub build_trace_tree-IsForest :
    (rd : Readers) (prompt : Option String) (events : List Event)
    → IsForest (build_trace_tree rd prompt events).nodes
unfolding build_trace_tree replace_recipient_ids
build_trace_tree-IsForest rd prompt events =
    let t = run_events rd prompt events empty_builder in
    let sorted =
      reorder_returns-Wooded t.by_tool t
        (run_events-Wooded rd prompt events empty_builder empty_builder-Wooded) in
    let names = (reorder_returns t.by_tool t).agent_names in
    map-IsForest (renamed rd names) (renamed-children rd names) (reorder_returns t.by_tool t).nodes
      sorted.forest
