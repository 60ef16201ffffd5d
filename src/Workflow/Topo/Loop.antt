-- ===== src/Workflow/Topo/Loop.antt =====
-- The outer loop of `TopoSort`: what it keeps, that it ends, and in which order it puts the nodes.
use chartly.Prelude.{
  ℕ, zero, suc, ◌+◌, ◌≤◌, ◌<◌, ◌≡◌, refl, sym, ap, ◌∙◌, Bool, ◌&&◌, ◌||◌, Option, none, some, List,
  [], ◌∷◌, arith, if◌then◌else◌, ◌==◌, ltb, length, All, All-imp,
}
use chartly.Prelude.Int.{ℤ, pos}
use chartly.Text.{Text}
use chartly.Text.Laws.{text_eq_iff, text_eq_refl}
use chartly.Text.Sort.{count, sort, count-sort, length-sort}
use chartly.Dict.{Dict, lookup, is_some}
use chartly.Workflow.{Edge, Dag}
use chartly.Workflow.Topo.{or_zero, Adjacency, release, kahn}
use chartly.Workflow.Topo.Degree.{
  into, outs, drop_from, into-drop_from, length-drop_from, outs-drop_from, outs-All,
}
use chartly.Workflow.Topo.Release.{release_degree, count-release, length-release}

-- A node of the graph, or a target of an edge.
abbrev pub known : Dag → Text → Bool
known d k = is_some (lookup k d.nodes) || ltb 0 (into k d.edges)

-- Every edge into a node of the list comes from `done` or from a node before it in the list.
abbrev pub Ordered : List Edge → List Text → List Text → Type 0
Ordered edges done [] = Unit
Ordered edges done (b ∷ order) =
    All (λ e. e.to ≡ b → 0 < count e.from done) edges × Ordered edges (b ∷ done) order

-- `rest` are the edges from nodes that are not done, `zeros` the nodes that wait.
pub record State (d : Dag) (done : List Text) (rest : List Edge) (indeg : Dict ℤ)
    (zeros : List Text) : Type 0 where
  pub degree : (k : Text) → or_zero (pos 0) (lookup k indeg) ≡ pos (into k rest)
  pub ready :
      (k : Text) → count k zeros + count k done ≡ (if known d k && (into k rest == 0) then 1 else 0)
  pub pending : (f : Text) → outs f rest ≡ (if count f done == 0 then outs f d.edges else [])
  pub fewer : (k : Text) → into k rest ≤ into k d.edges

-- The nodes `out` are done too, and no node waits.
pub record End (d : Dag) (done : List Text) (out : List Text) (rest : List Edge) : Type 0 where
  pub ready :
      (k : Text) → count k out + count k done ≡ (if known d k && (into k rest == 0) then 1 else 0)
  pub pending :
      (f : Text) → outs f rest ≡ (if (count f out + count f done) == 0 then outs f d.edges else [])

module _ (d : Dag) (done : List Text) (rest : List Edge) (indeg : Dict ℤ) (id : Text)
    (zeros : List Text) (s : State d done rest indeg (id ∷ zeros)) where
  head_new : count id done ≡ 0
  unfolding count
  head_new = ground (arith, s.ready id, text_eq_refl id)

  head_outs : outs id rest ≡ outs id d.edges
  head_outs = ground (arith, s.pending id, head_new)

  head_into : into id rest ≡ 0
  unfolding count
  head_into = ground (arith, s.ready id, text_eq_refl id)

  -- What the inner loop gets, for any node.
  head_degree :
      (k : Text)
      → or_zero (pos 0) (lookup k indeg)
        ≡ pos (into k (drop_from id rest) + count k (sort (outs id d.edges)))
  head_degree k =
      s.degree k
      ∙ ap pos (
          into-drop_from k id rest
          ∙ ap (λ n. into k (drop_from id rest) + n)
              (ap (count k) head_outs ∙ sym (count-sort k (outs id d.edges))))

  pub next_State :
      let (indeg', zeros') = release (sort (outs id d.edges)) indeg zeros in
      State d (id ∷ done) (drop_from id rest) indeg' (sort zeros')
  unfolding count
  next_State =
      let ts = sort (outs id d.edges) in
      record {
        degree = λ k. release_degree k ts indeg zeros (into k (drop_from id rest)) (head_degree k);
        ready = λ k.
            let less : into k rest ≡ into k (drop_from id rest) + count k ts =
              into-drop_from k id rest
              ∙ ap (λ n. into k (drop_from id rest) + n)
                  (ap (count k) head_outs ∙ sym (count-sort k (outs id d.edges))) in
            ground (
              arith,
              s.ready k,
              less,
              s.fewer k,
              count-sort k (release ts indeg zeros).1,
              count-release k ts indeg zeros (into k (drop_from id rest)) (head_degree k),
            );
        pending = λ f. ground (arith, outs-drop_from id f rest, s.pending f, text_eq_iff id f);
        fewer = λ k. omega (arith, into-drop_from k id rest, s.fewer k);
      }

  -- The edges into the node that is taken come from nodes that are done.
  pub head_Ordered : All (λ e. e.to ≡ id → 0 < count e.from done) d.edges
  head_Ordered =
      All-imp
        (λ e h same.
          let here : 0 < count id (outs e.from d.edges) = rw (← same) h in
          let none_left = into-drop_from id e.from rest in
          ground (arith, head_into, none_left, s.pending e.from, here))
        d.edges (outs-All d.edges)

  pub shorter :
      length (sort (release (sort (outs id d.edges)) indeg zeros).1) + length (drop_from id rest)
      ≤ length zeros + length rest
  shorter =
      let zeros' = (release (sort (outs id d.edges)) indeg zeros).1 in
      omega (
        arith,
        length-sort zeros',
        length-release (sort (outs id d.edges)) indeg zeros,
        length-sort (outs id d.edges),
        ap length head_outs,
        length-drop_from id rest,
      )

count_shift :
    (k id : Text) (out done : List Text)
    → count k (id ∷ out) + count k done ≡ count k out + count k (id ∷ done)
unfolding count
count_shift k id out done = ground arith

abbrev or_none : Text → Option (List Text) → Option (List Text)
or_none id none = none
or_none id (some out) = some (id ∷ out)

kahn-suc :
    (fuel : ℕ) (adj : Adjacency) (indeg : Dict ℤ) (id : Text) (zeros ts out : List Text)
    → or_zero [] (lookup id adj) ≡ ts
    → (let (indeg', zeros') = release ts indeg zeros in
        kahn fuel adj indeg' (sort zeros') ≡ some out)
    → kahn (suc fuel) adj indeg (id ∷ zeros) ≡ some (id ∷ out)
unfolding kahn
kahn-suc fuel adj indeg id zeros ts out a e =
    ap
      (λ us.
        or_none id (kahn fuel adj (release us indeg zeros).0 (sort (release us indeg zeros).1)))
      a
    ∙ ap (or_none id) e

-- What the loop returns with enough fuel.
pub record Runs (d : Dag) (done : List Text) (result : Option (List Text)) : Type 0 where
  pub out : List Text
  pub rest : List Edge
  pub ends : result ≡ some out
  pub at_end : End d done out rest
  pub in_order : Ordered d.edges done out

pub kahn-Runs :
    (d : Dag) (adj : Adjacency)
    → ((f : Text) → or_zero [] (lookup f adj) ≡ sort (outs f d.edges))
    → (fuel : ℕ) (done : List Text) (rest : List Edge) (indeg : Dict ℤ) (zeros : List Text)
    → State d done rest indeg zeros
    → length zeros + length rest ≤ fuel
    → Runs d done (kahn fuel adj indeg zeros)
unfolding kahn
kahn-Runs d adj a fuel done rest indeg [] s h = record {
  out = [];
  rest = rest;
  ends = ground arith;
  at_end = record { ready = s.ready; pending = λ f. s.pending f ∙ unfold count in ground arith };
  in_order = tt;
}
kahn-Runs d adj a zero done rest indeg (id ∷ zeros) s h = absurd (omega arith)
kahn-Runs d adj a (suc fuel) done rest indeg (id ∷ zeros) s h =
    let next = release (sort (outs id d.edges)) indeg zeros in
    let ih =
      kahn-Runs d adj a fuel (id ∷ done) (drop_from id rest) next.0 (sort next.1)
        (next_State d done rest indeg id zeros s)
        (omega (arith, shorter d done rest indeg id zeros s)) in
    record {
      out = id ∷ ih.out;
      rest = ih.rest;
      ends = kahn-suc fuel adj indeg id zeros (sort (outs id d.edges)) ih.out (a id) ih.ends;
      at_end = record {
        ready = λ k. count_shift k id ih.out done ∙ ih.at_end.ready k;
        pending = λ f. ih.at_end.pending f ∙ rw (count_shift f id ih.out done) refl;
      };
      in_order = (head_Ordered d done rest indeg id zeros s, ih.in_order);
    }
