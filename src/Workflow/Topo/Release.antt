-- ===== src/Workflow/Topo/Release.antt =====
-- The nodes that `TopoSort` starts with, and those that its inner loop adds.
use chartly.Prelude.{
  ℕ, zero, suc, ◌+◌, ◌≤◌, ◌≡◌, refl, ap, ◌∙◌, false, ◌&&◌, Option, none, some, List, [], ◌∷◌, ◌++◌,
  arith, if◌then◌else◌, ◌==◌, ltb, Bool-cases, inl, inr, length, length-append,
}
use chartly.Prelude.Int.{ℤ, pos, int_suc, int_pred, is_zero}
use chartly.Text.{Text, text_eq}
use chartly.Text.Laws.{text_eq_iff}
use chartly.Text.Sort.{count, count-append}
use chartly.Dict.{Dict, lookup, insert, is_some, IsUnique, lookup-insert, insert-IsUnique}
use chartly.Workflow.{Node, Edge}
use chartly.Workflow.Topo.{or_zero, start, add_indegrees, zero_keys, release}
use chartly.Workflow.Topo.Degree.{into, lookup-start, start-IsUnique, lookup_indegree}

abbrev zero_of : Option ℤ → ℕ
zero_of none = 0
zero_of (some n) = if is_zero n then 1 else 0

zero_keys-none : (k : Text) (indeg : Dict ℤ) → lookup k indeg ≡ none → count k (zero_keys indeg) ≡ 0
unfolding lookup zero_keys count
zero_keys-none k [] h = refl
zero_keys-none k ((id, n) ∷ indeg) h = ground (arith, zero_keys-none k indeg)

count-zero_keys :
    (k : Text) (indeg : Dict ℤ)
    → IsUnique indeg
    → count k (zero_keys indeg) ≡ zero_of (lookup k indeg)
unfolding lookup zero_keys count
count-zero_keys k [] u = refl
count-zero_keys k ((id, n) ∷ indeg) u =
    ground (arith, u.0, text_eq_iff id k, count-zero_keys k indeg u.1, zero_keys-none k indeg)

untouched :
    (k : Text) (es : List Edge) (indeg : Dict ℤ)
    → into k es ≡ 0
    → lookup k (add_indegrees es indeg) ≡ lookup k indeg
unfolding into add_indegrees
untouched k [] indeg h = refl
untouched k (e ∷ es) indeg h =
    let n : text_eq e.to k ≡ false = ground (arith, h) in
    let new = int_suc (or_zero (pos 0) (lookup e.to indeg)) in
    untouched k es (insert e.to new indeg) (ground (arith, h, n))
    ∙ rw (lookup-insert e.to k new indeg, n) refl

add_indegrees-IsUnique :
    (es : List Edge) (indeg : Dict ℤ) → IsUnique indeg → IsUnique (add_indegrees es indeg)
unfolding add_indegrees
add_indegrees-IsUnique [] indeg u = u
add_indegrees-IsUnique (e ∷ es) indeg u =
    let new = int_suc (or_zero (pos 0) (lookup e.to indeg)) in
    add_indegrees-IsUnique es (insert e.to new indeg) (insert-IsUnique e.to new indeg u)

zero_of_pos : (o : Option ℤ) (m : ℕ) → or_zero (pos 0) o ≡ pos (suc m) → zero_of o ≡ 0
zero_of_pos none m h = absurd (ground (arith, h))
zero_of_pos (some n) m h = ground (arith, h)

-- The loop starts with the nodes that no edge goes to.
pub count_first_zeros :
    (k : Text) (es : List Edge) (nodes : Dict Node)
    → IsUnique nodes
    → count k (zero_keys (add_indegrees es (start (pos 0) nodes)))
      ≡ (if is_some (lookup k nodes) && (into k es == 0) then 1 else 0)
count_first_zeros k es nodes u =
    let indeg = start (pos 0) nodes in
    let first =
      count-zero_keys k (add_indegrees es indeg)
        (add_indegrees-IsUnique es indeg (start-IsUnique (pos 0) nodes u)) in
    let degree = lookup_indegree k es nodes in
    first
    ∙ elim (into k es)
          as (λ m.
            into k es ≡ m
            → zero_of (lookup k (add_indegrees es indeg))
              ≡ (if is_some (lookup k nodes) && (m == 0) then 1 else 0)) [
                | zero ↦
                    λ e. rw (untouched k es indeg e, lookup-start (pos 0) k nodes) (ground arith)
                | suc m ↦ λ e.
                    zero_of_pos (lookup k (add_indegrees es indeg)) m (degree ∙ ap pos e)
                    ∙ ground arith
              ]
        refl

module _ (k : Text) where
  -- What the loop does to the in-degree of `k`, and how often it adds `k` to the list.
  pub release_degree :
      (ts : List Text) (indeg : Dict ℤ) (zeros : List Text) (n : ℕ)
      → or_zero (pos 0) (lookup k indeg) ≡ pos (n + count k ts)
      → or_zero (pos 0) (lookup k (release ts indeg zeros).0) ≡ pos n
  unfolding release count
  release_degree [] indeg zeros n h = h ∙ ap pos (omega arith)
  release_degree (t ∷ ts) indeg zeros n h =
      let new = int_pred (or_zero (pos 0) (lookup t indeg)) in
      release_degree ts (insert t new indeg) (if is_zero new then zeros ++ t ∷ [] else zeros) n
        (elim (Bool-cases (text_eq t k)) [
          | inl e ↦
              rw (lookup-insert t k new indeg, e)
                (rw ((text_eq_iff t k).0 e)
                  (ap int_pred (h ∙ ap pos {y = suc (n + count k ts)} (ground (arith, e)))))
          | inr e ↦ rw (lookup-insert t k new indeg, e) (h ∙ ap pos (ground (arith, e)))
        ])

  pub count-release :
      (ts : List Text) (indeg : Dict ℤ) (zeros : List Text) (n : ℕ)
      → or_zero (pos 0) (lookup k indeg) ≡ pos (n + count k ts)
      → count k (release ts indeg zeros).1
        ≡ count k zeros + (if ltb 0 (count k ts) && (n == 0) then 1 else 0)
  unfolding release count
  count-release [] indeg zeros n h = ground arith
  count-release (t ∷ ts) indeg zeros n h =
      let new = int_pred (or_zero (pos 0) (lookup t indeg)) in
      let zeros' = if is_zero new then zeros ++ t ∷ [] else zeros in
      elim (Bool-cases (text_eq t k)) [
        | inl e ↦
            let value : new ≡ pos (n + count k ts) =
              rw ((text_eq_iff t k).0 e)
                (ap int_pred (h ∙ ap pos {y = suc (n + count k ts)} (ground (arith, e)))) in
            let ih =
              count-release ts (insert t new indeg) zeros' n
                (rw (lookup-insert t k new indeg, e) value) in
            ground (arith, ih, e, value, count-append k zeros (t ∷ []))
        | inr e ↦
            let ih =
              count-release ts (insert t new indeg) zeros' n
                (rw (lookup-insert t k new indeg, e) (h ∙ ap pos (ground (arith, e)))) in
            ground (arith, ih, e, count-append k zeros (t ∷ []))
      ]

pub length-release :
    (ts : List Text) (indeg : Dict ℤ) (zeros : List Text)
    → length (release ts indeg zeros).1 ≤ length zeros + length ts
unfolding release
length-release [] indeg zeros = omega arith
length-release (t ∷ ts) indeg zeros =
    let new = int_pred (or_zero (pos 0) (lookup t indeg)) in
    let ih =
      length-release ts (insert t new indeg) (if is_zero new then zeros ++ t ∷ [] else zeros) in
    ground (arith, ih, length-append zeros (t ∷ []))
