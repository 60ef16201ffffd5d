-- ===== src/Ledger/Collapse.antt =====
-- What normCollapse of services/audit/internal/ledger/append_only.go leaves alone.
use chartly.Prelude.{
  ℕ, ◌≡◌, refl, ap, ◌∙◌, Bool, true, not, ◌&&◌, List, [], ◌∷◌, ◌++◌, arith, all, All, Bool-cases,
  ◌==◌, inl, inr, all-imp,
}
use chartly.Text.{Text, is_space, trim_left, trim_right, trim_space, cons_head}
use chartly.Text.Laws.{not_space}
use chartly.Ledger.{drop_nul, norm, pieces, non_empty, join_space, norm_collapse}

-- A byte of a word, and a text that is one.
unfoldable pub solid : ℕ → Bool
unfolding is_space
solid c = not_space c && not (c == 0)

abbrev pub IsWord : Text → Type 0
IsWord [] = ⊥
IsWord (c ∷ w) = all solid (c ∷ w) ≡ true

abbrev no_nul : ℕ → Bool
no_nul c = not (c == 0)

drop_nul_id : (s : Text) → all no_nul s ≡ true → drop_nul s ≡ s
unfolding drop_nul
drop_nul_id [] h = refl
drop_nul_id (c ∷ s) h = ground (arith, drop_nul_id s)

drop_nul-no_nul : (s : Text) → all no_nul (drop_nul s) ≡ true
unfolding drop_nul
drop_nul-no_nul [] = refl
drop_nul-no_nul (c ∷ s) = ground (arith, drop_nul-no_nul s)

-- The pieces of a text without NUL are without blanks and NUL.
abbrev AllSolid : List Text → Type 0
AllSolid = All (λ w. all solid w ≡ true)

cons_head-AllSolid :
    (c : ℕ) (ws : List Text) → solid c ≡ true → AllSolid ws → AllSolid (cons_head c ws)
cons_head-AllSolid c [] h ws = (ground arith, tt)
cons_head-AllSolid c (w ∷ ws) h hs = (ground (arith, hs.0), hs.1)

pieces-AllSolid : (s : Text) → all no_nul s ≡ true → AllSolid (pieces s)
unfolding pieces solid
pieces-AllSolid [] h = (refl, tt)
pieces-AllSolid (c ∷ s) h = elim (Bool-cases (is_space c)) [
  | inl e ↦ rw e (refl, pieces-AllSolid s (ground arith))
  | inr e ↦ rw e (cons_head-AllSolid c (pieces s) (ground arith) (pieces-AllSolid s (ground arith)))
]

non_empty-IsWord : (ws : List Text) → AllSolid ws → All IsWord (non_empty ws)
non_empty-IsWord [] h = tt
non_empty-IsWord ([] ∷ ws) h = non_empty-IsWord ws h.1
non_empty-IsWord ((c ∷ w) ∷ ws) h = (h.0, non_empty-IsWord ws h.1)

-- Words joined by blanks.
pieces-word : (w : Text) → all solid w ≡ true → pieces w ≡ w ∷ []
unfolding pieces solid
pieces-word [] h = refl
pieces-word (c ∷ w) h = ground (arith, pieces-word w)

pieces-word_append : (w t : Text) → all solid w ≡ true → pieces (w ++ b' ' ∷ t) ≡ w ∷ pieces t
unfolding pieces solid
pieces-word_append [] t h = refl
pieces-word_append (c ∷ w) t h = ground (arith, pieces-word_append w t)

non_empty-word : (w : Text) (ws : List Text) → IsWord w → non_empty (w ∷ ws) ≡ w ∷ non_empty ws
non_empty-word [] ws h = absurd h
non_empty-word (c ∷ w) ws h = refl

solid-word : (w : Text) → IsWord w → all solid w ≡ true
solid-word [] h = absurd h
solid-word (c ∷ w) h = h

fields_of_join : (ws : List Text) → All IsWord ws → non_empty (pieces (join_space ws)) ≡ ws
unfolding pieces
fields_of_join [] h = refl
fields_of_join (w ∷ []) h =
    ap non_empty (pieces-word w (solid-word w h.0)) ∙ non_empty-word w [] h.0
fields_of_join (w ∷ v ∷ ws) h =
    ap non_empty (pieces-word_append w (join_space (v ∷ ws)) (solid-word w h.0))
    ∙ non_empty-word w (pieces (join_space (v ∷ ws))) h.0
    ∙ ap (λ xs. w ∷ xs) (fields_of_join (v ∷ ws) h.1)

no_nul-word_append :
    (w t : Text) → all solid w ≡ true → all no_nul t ≡ true → all no_nul (w ++ t) ≡ true
unfolding solid
no_nul-word_append [] t h ht = ht
no_nul-word_append (c ∷ w) t h ht = ground (arith, no_nul-word_append w t)

solid-no_nul : (c : ℕ) → solid c ≡ true → no_nul c ≡ true
unfolding solid
solid-no_nul c h = ground arith

join_space-no_nul : (ws : List Text) → All IsWord ws → all no_nul (join_space ws) ≡ true
join_space-no_nul [] h = refl
join_space-no_nul (w ∷ []) h = all-imp solid no_nul (λ c. solid-no_nul c) w (solid-word w h.0)
join_space-no_nul (w ∷ v ∷ ws) h =
    no_nul-word_append w (b' ' ∷ join_space (v ∷ ws)) (solid-word w h.0)
      (ground (arith, join_space-no_nul (v ∷ ws) h.1))

-- A text that starts and ends with a word has nothing to trim.
trim_right-append :
    (w : Text) (c : ℕ) (t : Text)
    → trim_right (c ∷ t) ≡ c ∷ t
    → trim_right (w ++ c ∷ t) ≡ w ++ c ∷ t
unfolding trim_right
trim_right-append [] c t h = h
trim_right-append (x ∷ []) c t h = ground (arith, h)
trim_right-append (x ∷ y ∷ w) c t h = ground (arith, trim_right-append (y ∷ w) c t h)

join_space_cons :
    (v : Text) (vs : List Text) → IsWord v → (c : ℕ) × (t : Text) × (join_space (v ∷ vs) ≡ c ∷ t)
join_space_cons [] vs h = absurd h
join_space_cons (c ∷ v) [] h = (c, v, refl)
join_space_cons (c ∷ v) (u ∷ vs) h = (c, v ++ b' ' ∷ join_space (u ∷ vs), refl)

trim_right-word : (w : Text) → all solid w ≡ true → trim_right w ≡ w
unfolding trim_right solid
trim_right-word [] h = refl
trim_right-word (c ∷ []) h = ground arith
trim_right-word (c ∷ d ∷ w) h = ground (arith, trim_right-word (d ∷ w))

trim_right_blank :
    (t : Text)
    → trim_right t ≡ t
    → (c : ℕ) (s : Text) → t ≡ c ∷ s
    → trim_right (b' ' ∷ t) ≡ b' ' ∷ t
unfolding trim_right
trim_right_blank t h c s e = rw (h, e)

trim_right-join_space :
    (ws : List Text) → All IsWord ws → trim_right (join_space ws) ≡ join_space ws
unfolding trim_right
trim_right-join_space [] h = refl
trim_right-join_space (w ∷ []) h = trim_right-word w (solid-word w h.0)
trim_right-join_space (w ∷ v ∷ ws) h =
    let (c, t, e) = join_space_cons v ws h.1.0 in
    trim_right-append w b' ' (join_space (v ∷ ws))
      (trim_right_blank (join_space (v ∷ ws)) (trim_right-join_space (v ∷ ws) h.1) c t e)

trim_left-solid : (c : ℕ) (t : Text) → solid c ≡ true → trim_left (c ∷ t) ≡ c ∷ t
unfolding trim_left solid
trim_left-solid c t h = ground arith

trim_left-join_space : (ws : List Text) → All IsWord ws → trim_left (join_space ws) ≡ join_space ws
unfolding trim_left
trim_left-join_space [] h = refl
trim_left-join_space ([] ∷ ws) h = absurd h.0
trim_left-join_space ((c ∷ w) ∷ []) h = trim_left-solid c w (ground (arith, h.0))
trim_left-join_space ((c ∷ w) ∷ v ∷ ws) h =
    trim_left-solid c (w ++ b' ' ∷ join_space (v ∷ ws)) (ground (arith, h.0))

-- Words joined by single blanks are left alone.
norm_collapse-join_space :
    (ws : List Text) → All IsWord ws → norm_collapse (join_space ws) ≡ join_space ws
unfolding norm_collapse norm trim_space
norm_collapse-join_space ws h = rw (trim_left-join_space ws h) (
    rw (trim_right-join_space ws h) (
      rw (drop_nul_id (join_space ws) (join_space-no_nul ws h))
        (ap join_space (fields_of_join ws h))))

-- A field that was collapsed once is left alone.
pub norm_collapse_idem : (s : Text) → norm_collapse (norm_collapse s) ≡ norm_collapse s
unfolding norm_collapse norm
norm_collapse_idem s =
    norm_collapse-join_space (non_empty (pieces (norm s))) (
      non_empty-IsWord (pieces (norm s))
        (pieces-AllSolid (norm s) (drop_nul-no_nul (trim_space s))))

-- A single word is left alone, and so is the empty text.
pub norm_collapse-word : (w : Text) → all solid w ≡ true → norm_collapse w ≡ w
unfolding norm_collapse norm trim_space pieces drop_nul trim_left trim_right
norm_collapse-word [] h = refl
norm_collapse-word (c ∷ w) h = norm_collapse-join_space ((c ∷ w) ∷ []) (h, tt)
