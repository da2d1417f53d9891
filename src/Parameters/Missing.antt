-- ===== src/Parameters/Missing.antt =====
-- The parameters that a query's text names and that have no value yet: `missing_params` of
-- redash/models/parameterized_query.py. `distinct` stands for the package funcy, and a parse tree is what
-- pystache makes of the text. A set is the list of what is in it.
use dingolytics_backend.Base.{not, List, [], ◌∷◌, ◌++◌, map, keep, contains}
use dingolytics_backend.Base.Dict.{Dict, keys}
use dingolytics_backend.Base.Text.{Text, codes, text_eq}
use dingolytics_backend.Parameters.Values.{Library, Value, dict}
use dingolytics_backend.Parameters.{ParameterizedQuery}

-- The nodes of a parse tree: each has the nodes behind it, and a section the nodes inside it.
pub data Nodes : Type 0 where
  no_nodes : Nodes
  escape_node : Text → Nodes → Nodes
  section_node : Text → Nodes → Nodes → Nodes
  other_node : Nodes → Nodes

module _ (distinct : List Text → List Text) where
  key_names : Nodes → List Text
  key_names no_nodes = []
  key_names (escape_node key rest) = key ∷ key_names rest
  key_names (section_node key parsed rest) = key ∷ (distinct (key_names parsed) ++ key_names rest)
  key_names (other_node rest) = key_names rest

  -- `_collect_key_names`
  unfoldable pub collect_key_names : Nodes → List Text
  unfolding key_names
  collect_key_names nodes = distinct (key_names nodes)

  unfoldable pub collect_query_parameters : (parse : Text → Nodes) → Text → List Text
  collect_query_parameters parse query = collect_key_names (parse query)

module _ (L : Library) where
  value_names : Text → Value L → List Text
  value_names key (dict d) = map (λ inner_key. key ++ (codes "." ++ inner_key)) (keys d)
  value_names key value = key ∷ []

  -- `_parameter_names`
  unfoldable pub parameter_names : Dict Text (Value L) → List Text
  unfolding value_names
  parameter_names [] = []
  parameter_names ((key, value) ∷ parameters) = value_names key value ++ parameter_names parameters

  unfoldable pub missing_params :
      (distinct : List Text → List Text) (parse : Text → Nodes) → ParameterizedQuery L → List Text
  unfolding parameter_names
  missing_params distinct parse q =
      keep (λ name. not (contains (parameter_names q.parameters) name))
        (collect_query_parameters distinct parse q.template)
