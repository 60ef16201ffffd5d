-- ===== src/Workflow/Topo/Degree.antt =====
-- The in-degrees and the adjacency lists that `TopoSort` starts with, read from the list of edges.
use chartly.Prelude.{
  ℕ, suc, ◌+◌, ◌<◌, ◌≡◌, refl, sym, ap, ◌∙◌, none, some, List, [], ◌∷◌, ◌++◌, arith, if◌then◌else◌,
  Bool-cases, inl, inr, length, All, All-imp, append-nil, append_assoc,
}
use chartly.Prelude.Int.{ℤ, pos, int_suc}
use chartly.Text.{Text, text_eq}
use chartly.Text.Laws.{text_eq_iff, text_eq_refl}
use chartly.Text.Sort.{count, sort}
use chartly.Dict.{Dict, lookup, insert, is_some, IsUnique, lookup-insert}
use chartly.Workflow.{Node, Edge}
use chartly.Workflow.Topo.{or_zero, Adjacency, start, add_adjacent, add_indegrees, sort_each}

-- How many edges go to a node.
unfoldable pub into : Text → List Edge → ℕ
into k [] = 0
into k (e ∷ es) = let rest = into k es in if text_eq e.to k then suc rest else rest

-- The targets of the edges from a node.
unfoldable pub outs : Text → List Edge → List Text
outs f [] = []
outs f (e ∷ es) = let rest = outs f es in if text_eq e.from f then e.to ∷ rest else rest

-- The edges that do not come from a node.
unfoldable pub drop_from : Text → List Edge → List Edge
drop_from f [] = []
drop_from f (e ∷ es) = let rest = drop_from f es in if text_eq e.from f then rest else e ∷ rest

pub into-drop_from :
    (k f : Text) (es : List Edge) → into k es ≡ into k (drop_from f es) + count k (outs f es)
unfolding into outs drop_from count
into-drop_from k f [] = omega arith
into-drop_from k f (e ∷ es) = ground (arith, into-drop_from k f es)

pub length-drop_from :
    (f : Text) (es : List Edge) → length es ≡ length (drop_from f es) + length (outs f es)
unfolding outs drop_from
length-drop_from f [] = omega arith
length-drop_from f (e ∷ es) = ground (arith, length-drop_from f es)

pub outs-drop_from :
    (f g : Text) (es : List Edge)
    → outs g (drop_from f es) ≡ (if text_eq f g then [] else outs g es)
unfolding outs drop_from
outs-drop_from f g [] = ground arith
outs-drop_from f g (e ∷ es) =
    ground
      (arith, outs-drop_from f g es, text_eq_iff e.from f, text_eq_iff e.from g, text_eq_iff f g)

pub outs_some : (k : Text) (es : List Edge) → 0 < into k es → (f : Text) × (0 < count k (outs f es))
unfolding into outs count
outs_some k [] h = absurd (omega arith)
outs_some k (e ∷ es) h = elim (Bool-cases (text_eq e.to k)) [
  | inl t ↦ (e.from, rw (text_eq_refl e.from) (rw t (omega arith)))
  | inr n ↦ let (f, p) = outs_some k es (ground (arith, h, n)) in (f, ground (arith, p, n))
]

-- Every edge is found among the targets of its source.
pub outs-All : (es : List Edge) → All (λ e. 0 < count e.to (outs e.from es)) es
unfolding outs count
outs-All [] = tt
outs-All (x ∷ es) = (
  rw (text_eq_refl x.from) (rw (text_eq_refl x.to) (omega arith)),
  All-imp (λ e h. ground (arith, h)) es (outs-All es),
)

or_zero-start {ℓ} :
    {V : Type ℓ} (v : V) (k : Text) (nodes : Dict Node) → or_zero v (lookup k (start v nodes)) ≡ v
unfolding start lookup
or_zero-start v k [] = refl
or_zero-start v k ((id, n) ∷ nodes) = ground (arith, or_zero-start v k nodes)

pub lookup-start {ℓ} :
    {V : Type ℓ} (v : V) (k : Text) (nodes : Dict Node)
    → lookup k (start v nodes) ≡ (if is_some (lookup k nodes) then some v else none)
unfolding start lookup
lookup-start v k [] = refl
lookup-start v k ((id, n) ∷ nodes) = ground (arith, lookup-start v k nodes)

pub start-IsUnique {ℓ} :
    {V : Type ℓ} (v : V) (nodes : Dict Node) → IsUnique nodes → IsUnique (start v nodes)
unfolding start lookup
start-IsUnique v [] u = tt
start-IsUnique v ((id, n) ∷ nodes) u =
    (rw (lookup-start v id nodes, u.0) refl, start-IsUnique v nodes u.1)

lookup-add_adjacent :
    (f : Text) (es : List Edge) (adj : Adjacency)
    → or_zero [] (lookup f (add_adjacent es adj)) ≡ or_zero [] (lookup f adj) ++ outs f es
unfolding add_adjacent outs
lookup-add_adjacent f [] adj = sym (append-nil (or_zero [] (lookup f adj)))
lookup-add_adjacent f (e ∷ es) adj =
    let new = or_zero [] (lookup e.from adj) ++ e.to ∷ [] in
    lookup-add_adjacent f es (insert e.from new adj) ∙ elim (Bool-cases (text_eq e.from f)) [
      | inl t ↦
          rw (lookup-insert e.from f new adj, t)
            (rw ((text_eq_iff e.from f).0 t)
              (append_assoc (or_zero [] (lookup f adj)) (e.to ∷ []) (outs f es)))
      | inr n ↦ rw (lookup-insert e.from f new adj, n) refl
    ]

lookup-sort_each :
    (f : Text) (adj : Adjacency)
    → or_zero [] (lookup f (sort_each adj)) ≡ sort (or_zero [] (lookup f adj))
unfolding sort_each lookup
lookup-sort_each f [] = unfold sort in refl
lookup-sort_each f ((id, ts) ∷ adj) = ground (arith, lookup-sort_each f adj)

-- The adjacency list of a node.
pub lookup_adjacent :
    (f : Text) (es : List Edge) (nodes : Dict Node)
    → or_zero [] (lookup f (sort_each (add_adjacent es (start [] nodes)))) ≡ sort (outs f es)
lookup_adjacent f es nodes =
    lookup-sort_each f (add_adjacent es (start [] nodes))
    ∙ ap sort (
        lookup-add_adjacent f es (start [] nodes)
        ∙ ap (λ ts. ts ++ outs f es) (or_zero-start [] f nodes))

lookup-add_indegrees :
    (k : Text) (es : List Edge) (indeg : Dict ℤ) (n : ℕ)
    → or_zero (pos 0) (lookup k indeg) ≡ pos n
    → or_zero (pos 0) (lookup k (add_indegrees es indeg)) ≡ pos (n + into k es)
unfolding add_indegrees into
lookup-add_indegrees k [] indeg n h = h ∙ ap pos (omega arith)
lookup-add_indegrees k (e ∷ es) indeg n h =
    let new = int_suc (or_zero (pos 0) (lookup e.to indeg)) in
    elim (Bool-cases (text_eq e.to k)) [
      | inl t ↦
          lookup-add_indegrees k es (insert e.to new indeg) (suc n)
            (rw (lookup-insert e.to k new indeg, t) (rw ((text_eq_iff e.to k).0 t) (ap int_suc h)))
          ∙ ap pos (ground (arith, t))
      | inr f ↦
          lookup-add_indegrees k es (insert e.to new indeg) n
            (rw (lookup-insert e.to k new indeg, f) h)
          ∙ ap pos (ground (arith, f))
    ]

pub lookup_indegree :
    (k : Text) (es : List Edge) (nodes : Dict Node)
    → or_zero (pos 0) (lookup k (add_indegrees es (start (pos 0) nodes))) ≡ pos (into k es)
lookup_indegree k es nodes =
    lookup-add_indegrees k es (start (pos 0) nodes) 0 (or_zero-start (pos 0) k nodes)
    ∙ ap pos (omega arith)
