-- ===== src/Ledger/Normal.antt =====
-- The normalisation of an event's maps.
use chartly.Prelude.{◌≡◌, ◌≢◌, sym, ap, ◌∙◌, false, [], ◌∷◌, arith}
use chartly.Text.{Text, is_empty}
use chartly.Text.Laws.{text_eq_refl}
use chartly.Text.Sort.{sort, place}
use chartly.Dict.{lookup, insert}
use chartly.Ledger.{norm_collapse, normalize_string_map}

-- The value of the later of two entries whose keys collapse to one.
later_wins :
    (k j v w : Text)
    → norm_collapse k ≡ norm_collapse j
    → is_empty (norm_collapse j) ≡ false
    → normalize_string_map ((k, v) ∷ (j, w) ∷ []) ≡ (norm_collapse j, norm_collapse w) ∷ []
unfolding normalize_string_map insert lookup sort place
later_wins k j v w same some_key =
    rw (same, some_key) (ground (arith, text_eq_refl (norm_collapse j)))

-- `normalizeStringMap` is not a function of the map: where the keys of two entries collapse to one,
-- and their values do not, the result depends on which of the two the loop over the map visits last.
pub colliding_keys :
    (k j v w : Text)
    → norm_collapse k ≡ norm_collapse j
    → is_empty (norm_collapse j) ≡ false
    → norm_collapse v ≢ norm_collapse w
    → normalize_string_map ((k, v) ∷ (j, w) ∷ []) ≢ normalize_string_map ((j, w) ∷ (k, v) ∷ [])
colliding_keys k j v w same some_key differ e =
    let first = later_wins k j v w same some_key in
    let second = later_wins j k w v (sym same) (ap is_empty same ∙ some_key) in
    differ (ground (arith, sym first ∙ e ∙ second))
