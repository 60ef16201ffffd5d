-- ===== src/Workflow/Topo/Sorted.antt =====
-- What `TopoSort` returns on a graph whose edges join its nodes.
use chartly.Prelude.{
  ◌+◌, ◌≤◌, ◌<◌, ◌≡◌, ◌≢◌, refl, ap, ◌∙◌, Bool, true, false, ◌&&◌, none, List, [], ◌∷◌, arith, ◌==◌,
  ◌⊎◌, inl, inr, length, All, Bool-cases,
}
use mathlib.Core.Path.{subst}
use native.Mathlib.Decide.{dec_lt}
use chartly.Prelude.Int.{pos}
use chartly.Text.{Text, text_eq}
use chartly.Text.Laws.{text_eq_iff}
use chartly.Text.Sort.{count, sort, count-sort}
use chartly.Dict.{Dict, lookup, is_some, IsUnique}
use chartly.Workflow.{Node, Edge, Dag, cycle_detected}
use chartly.Workflow.Topo.{
  start, add_adjacent, add_indegrees, sort_each, zero_keys, kahn, finish, topo_sort, check_edges,
}
use chartly.Workflow.Topo.Degree.{into, outs, outs_some, lookup_adjacent, lookup_indegree}
use chartly.Workflow.Topo.Release.{count_first_zeros}
use chartly.Workflow.Topo.Loop.{known, Ordered, State, End, Runs, kahn-Runs}
use chartly.Workflow.Topo.Pigeonhole.{one_if_key, every_key, missing_key, length-at_most}

-- Every node once, after all the nodes that have an edge to it.
pub record IsTopological (d : Dag) (order : List Text) : Type 0 where
  pub each_once : (k : Text) → count k order ≡ one_if_key d.nodes k
  pub in_order : Ordered d.edges [] order

-- There is an edge from `f` to `k`.
abbrev pub HasEdge : Dag → Text → Text → Type 0
HasEdge d f k = 0 < count k (outs f d.edges)

-- Some nodes, at least one, each with an edge from another of them: who walks back along these
-- edges goes round in a cycle.
pub record IsCyclic (d : Dag) : Type 0 where
  pub on_cycle : Text → Bool
  pub one : Text
  pub has_one : on_cycle one ≡ true
  pub all_nodes : (k : Text) → on_cycle k ≡ true → is_some (lookup k d.nodes) ≡ true
  pub from_one : (k : Text) → on_cycle k ≡ true → (f : Text) × (on_cycle f ≡ true) × HasEdge d f k

-- The nodes are a map, and the edges join nodes.
abbrev pub IsJoined : Dag → Type 0
IsJoined d = IsUnique d.nodes × (check_edges d.nodes d.edges ≡ none)

first_State :
    (d : Dag)
    → IsUnique d.nodes
    → let indeg = add_indegrees d.edges (start (pos 0) d.nodes) in
      State d [] d.edges indeg (sort (zero_keys indeg))
unfolding count
first_State d u = record {
  degree = λ k. lookup_indegree k d.edges d.nodes;
  ready = λ k.
      let zeros = zero_keys (add_indegrees d.edges (start (pos 0) d.nodes)) in
      ground (arith, count-sort k zeros, count_first_zeros k d.edges d.nodes u);
  pending = λ f. refl;
  fewer = λ k. omega arith;
}

-- The loop of `TopoSort` ends with the fuel that it is given.
first-Runs :
    (d : Dag)
    → IsUnique d.nodes
    → let adj = sort_each (add_adjacent d.edges (start [] d.nodes)) in
      let indeg = add_indegrees d.edges (start (pos 0) d.nodes) in
      let zeros = sort (zero_keys indeg) in
      Runs d [] (kahn (length zeros + length d.edges) adj indeg zeros)
first-Runs d u =
    let indeg = add_indegrees d.edges (start (pos 0) d.nodes) in
    let zeros = sort (zero_keys indeg) in
    kahn-Runs d (sort_each (add_adjacent d.edges (start [] d.nodes)))
      (λ f. lookup_adjacent f d.edges d.nodes) (length zeros + length d.edges) [] d.edges indeg
      zeros (first_State d u) (omega arith)

module _ (nodes : Dict Node) where
  ends_are_nodes :
      (es : List Edge)
      → check_edges nodes es ≡ none
      → (f k : Text) → 0 < count k (outs f es)
      → (is_some (lookup f nodes) ≡ true) × (is_some (lookup k nodes) ≡ true)
  unfolding check_edges outs count
  ends_are_nodes [] h f k p = absurd (omega arith)
  ends_are_nodes (e ∷ es) h f k p = elim (Bool-cases (text_eq e.from f && text_eq e.to k)) [
    | inl same ↦ ground (arith, h, same, text_eq_iff e.from f, text_eq_iff e.to k)
    | inr other ↦ ends_are_nodes es (ground (arith, h)) f k (ground (arith, p, other))
  ]

known_lem : (d : Dag) (k : Text) → IsJoined d → known d k ≡ is_some (lookup k d.nodes)
known_lem d k (u, c) = elim (dec_lt 0 (into k d.edges)) [
  | yes p ↦
      let (f, e) = outs_some k d.edges p in rw ((ends_are_nodes d.nodes d.edges c f k e).1) refl
  | no n ↦ ground (arith, n)
]

module _ (d : Dag) (j : IsJoined d) (out : List Text) (rest : List Edge)
    (e : End d [] out rest) where
  out_keys : (k : Text) → count k out ≤ one_if_key d.nodes k
  unfolding count
  out_keys k = ground (arith, e.ready k, known_lem d k j)

  stuck-IsCyclic : length out ≢ length d.nodes → IsCyclic d
  unfolding count
  stuck-IsCyclic ne =
      let short : length out < length d.nodes =
        omega (arith, ne, length-at_most d.nodes out j.0 out_keys) in
      let (k, key, absent) = missing_key d.nodes out j.0 out_keys short in
      record {
        on_cycle = λ k. is_some (lookup k d.nodes) && (count k out == 0);
        one = k;
        has_one = ground (arith, key, absent);
        all_nodes = λ k h. ground (arith, h);
        from_one = stuck_from;
      }
    where
      stuck_from :
          (k : Text)
          → (is_some (lookup k d.nodes) && (count k out == 0)) ≡ true
          → (f : Text) × ((is_some (lookup f d.nodes) && (count f out == 0)) ≡ true) × HasEdge d f k
      stuck_from k h =
          let left : 0 < into k rest = ground (arith, h, e.ready k, known_lem d k j) in
          let (f, p) = outs_some k rest left in
          let undone : count f out ≡ 0 = ground (arith, p, e.pending f) in
          let edge : HasEdge d f k = ground (arith, p, e.pending f, undone) in
          (f, ground (arith, undone, (ends_are_nodes d.nodes d.edges j.1 f k edge).0), edge)

-- On a graph whose edges join its nodes, `TopoSort` always returns: either an order in which every
-- node stands once and after all the nodes with an edge to it, or `ErrCycleDetected`, and then the
-- graph has a cycle.
pub topo_sort_decides :
    (d : Dag)
    → IsJoined d
    → ((order : List Text) × (topo_sort d ≡ inr order) × IsTopological d order)
      ⊎ ((topo_sort d ≡ inl cycle_detected) × IsCyclic d)
unfolding topo_sort
topo_sort_decides d j =
    let r = first-Runs d j.0 in
    let counts = out_keys d j r.out r.rest r.at_end in
    elim (Bool-cases (length r.out == length d.nodes)) [
      | inl same ↦ inl (
        r.out,
        ap (finish d.nodes) r.ends ∙ rw same refl,
        record {
          each_once = every_key d.nodes r.out j.0 counts (ground (arith, same));
          in_order = r.in_order;
        },
      )
      | inr other ↦ inr (
        ap (finish d.nodes) r.ends ∙ rw other refl,
        stuck-IsCyclic d j r.out r.rest r.at_end (λ e. ground (arith, other, e)),
      )
    ]

source_done :
    (es : List Edge) (f b : Text) (done : List Text)
    → 0 < count b (outs f es)
    → All (λ e. e.to ≡ b → 0 < count e.from done) es
    → 0 < count f done
unfolding outs count
source_done [] f b done p h = absurd (omega arith)
source_done (e ∷ es) f b done p h = elim (Bool-cases (text_eq e.from f && text_eq e.to b)) [
  | inl same ↦
      let from : e.from ≡ f = (text_eq_iff e.from f).0 (ground (arith, same)) in
      let to : e.to ≡ b = (text_eq_iff e.to b).0 (ground (arith, same)) in
      subst (λ k. 0 < count k done) from (h.0 to)
  | inr other ↦ source_done es f b done (ground (arith, p, other)) h.1
]

module _ (d : Dag) (c : IsCyclic d) where
  -- No node of a cycle gets into the order first.
  never_first :
      (order done : List Text)
      → ((f : Text) → c.on_cycle f ≡ true → count f done ≡ 0)
      → Ordered d.edges done order
      → (k : Text) → c.on_cycle k ≡ true
      → count k order ≡ 0
  unfolding count
  never_first [] done free o k h = refl
  never_first (b ∷ order) done free o k h =
      let off : c.on_cycle b ≡ false = elim (Bool-cases (c.on_cycle b)) [
        | inr n ↦ n
        | inl y ↦
            let (f, on, edge) = c.from_one b y in
            absurd (omega (arith, free f on, source_done d.edges f b done edge o.0))
      ] in
      let ih =
        never_first order (b ∷ done) (λ f on. ground (arith, free f on, on, off, text_eq_iff b f))
          o.1 k h in
      ground (arith, ih, h, off, text_eq_iff b k)

  IsTopological-not_cyclic : (order : List Text) → ¬ IsTopological d order
  IsTopological-not_cyclic order t =
      let absent = never_first order [] (λ f on. unfold count in refl) t.in_order c.one c.has_one in
      ground (arith, absent, t.each_once c.one, c.all_nodes c.one c.has_one)

-- A graph with a cycle is refused with `ErrCycleDetected`.
pub cyclic_refused : (d : Dag) → IsJoined d → IsCyclic d → topo_sort d ≡ inl cycle_detected
cyclic_refused d j c = elim (topo_sort_decides d j) [
  | inl (order, e, t) ↦ absurd (IsTopological-not_cyclic d c order t)
  | inr (e, other) ↦ e
]
