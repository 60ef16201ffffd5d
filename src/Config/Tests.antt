-- ===== src/Config/Tests.antt =====
-- Concrete layers of configuration.
use chartly.Prelude.{◌≡◌, refl, Option, none, some, List, [], ◌∷◌, ◌++◌}
use chartly.Prelude.Int.{pos}
use chartly.Text.{Text, lit, text_eq, trim_space}
use chartly.Idempotency.Encode.{format_uint}
use chartly.Config.{
  Fields, end, field, null, scalar, obj, arr, nil, cons, MergeOptions, default_merge_options,
  merge_many,
}
use chartly.Config.Wins.{AreTidy, get, last_layer_wins}

abbrev options : MergeOptions
options = record {
  max_depth = pos 0;
  max_nodes = pos 0;
  max_warnings = pos 0;
  array_policy = none;
  max_concat_len = pos 0;
}

abbrev number : Text → Fields → Fields
number v rest = field (lit "port") (scalar (lit "float64") v) rest

abbrev base : Fields
base =
    field (lit "name") (scalar (lit "string") (lit "base"))
      (field (lit "server") (obj (number (lit "80") end)) end)

abbrev site : Fields
site =
    field (lit "server") (obj (number (lit "8080") end))
      (field (lit "tags") (arr (cons null nil)) end)

abbrev layers : List (Option Fields)
layers = some base ∷ none ∷ []

site-AreTidy : AreTidy site
unfolding AreTidy text_eq
site-AreTidy = (refl, (refl, tt, tt), (refl, tt, tt))

last_layer_wins_example :
    get (lit "server" ∷ lit "port" ∷ []) (obj (merge_many (layers ++ some site ∷ []) options).0)
    ≡ some (scalar (lit "float64") (lit "8080"))
unfolding default_merge_options text_eq
last_layer_wins_example =
    last_layer_wins layers site options (lit "server") (lit "port" ∷ [])
      (scalar (lit "float64") (lit "8080")) refl site-AreTidy tt refl

merged_name :
    get (lit "name" ∷ []) (obj (merge_many (layers ++ some site ∷ []) options).0)
    ≡ some (scalar (lit "string") (lit "base"))
unfolding merge_many text_eq format_uint trim_space
merged_name = refl

-- Two nodes are enough for the first layer and the map of the second: its server replaces the old
-- one. After them a third layer replaces everything.
abbrev few_nodes : MergeOptions
few_nodes = record options { max_nodes = pos 2 }

exhausted_drops :
    get
      (lit "name" ∷ [])
      (obj (merge_many (layers ++ some site ∷ some (number (lit "1") end) ∷ []) few_nodes).0)
    ≡ none
unfolding merge_many text_eq format_uint trim_space
exhausted_drops = refl
