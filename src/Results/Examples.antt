-- ===== src/Results/Examples.antt =====
-- A saved query that is run, one that a cached result answers, and results that are handed out.
use mathlib.Core.List.{Memᴰ}
use dingolytics_backend.Groups.{groups}
use dingolytics_backend.Base.{
  ℕ, Bool, true, false, Option, none, some, List, [], ◌∷◌, ◌≡◌, ◌≢◌, refl, string_eq,
}
use dingolytics_backend.Base.Dict.{Dict}
use dingolytics_backend.Base.Result.{Result, ok, err, no_result_found, value_error}
use dingolytics_backend.Base.Text.{text_beq, Text, codes}
use dingolytics_backend.Users.{permissions, user, api_user, ApiUser, has_permission}
use dingolytics_backend.Utils.{comment_here, strip_comments, squeeze, gen_query_hash}
use dingolytics_backend.Access.{
  group_ids, groups_of, has_access_to_groups, require_access, require_permissions, has_access,
}
use dingolytics_backend.Grants.Handlers.{or_404}
use dingolytics_backend.Parameters.Values.{Library, Value, Referred}
use dingolytics_backend.Parameters.{
  join_parameter_list_values, invalid_names, ParameterizedQuery, apply,
}
use dingolytics_backend.Parameters.Missing.{
  collect_key_names, collect_query_parameters, missing_params, Nodes, no_nodes,
}
use dingolytics_backend.Execution.{ℤ, pos, is_fresh, get_latest, QueryResult}
use dingolytics_backend.Store.{find_result, log, find_query, guarded_source}
use dingolytics_backend.Store.Samples.{site as sample, ada, warehouse, nine}
use dingolytics_backend.Results.{
  Response, query_result, job_started, Site, run_query, execute_saved, get_result,
}
use dingolytics_backend.Results.Cached.{IsYoung, run_query-cached}
use dingolytics_backend.Results.Serving.{get_result-has_access}

abbrev python : Library
python = record {
  Element = Text;
  text_of = λ v. some v;
  str_element = λ v. v;
  str_object = λ d. codes "object";
  Other = ℕ;
  str_other = λ n. codes "number";
  is_number_type = λ n. true;
  reads_float = λ t. true;
  parse_date = λ t. err value_error;
}

abbrev no_query : Option ℕ → Result (Referred python)
no_query id = err no_result_found

abbrev as_it_is : Text → Dict Text (Value python) → Text
as_it_is template values = template

abbrev all_names : List Text → List Text
all_names names = names

abbrev no_names : Text → Nodes
no_names text = no_nodes

abbrev same : Text → Text
same text = text

abbrev unlimited : ℕ → Text → Bool → Text
unlimited source text limit = text

abbrev site : Site
site = record {
  store = record sample { results = record nine { query_hash = codes "s1" } ∷ [] };
  jobs = [];
}

abbrev run_saved : ℤ → Result (Response × Site)
run_saved max_age =
    execute_saved python no_query as_it_is all_names no_names same unlimited site (user ada) 1 3 []
      false max_age 2_000

abbrev started : Site
started = record {
  store = record site.store {
    events = record { action = "execute_query"; object_type = "data_source"; object_id = 4 } ∷ [];
  };
  jobs = record { query_text = codes "S1"; data_source_id = 4; caller = user ada } ∷ [];
}

abbrev plain : ParameterizedQuery python
plain = record { schema = []; template = codes "S1"; query = codes "S1"; parameters = [] }

abbrev young : QueryResult
young = record nine { query_hash = codes "s1" }

-- Five seconds after the result was retrieved.
abbrev five_seconds_on : ℕ
five_seconds_on = 1_000_005_000_000

abbrev hit : Site
hit = record started { jobs = [] }

hits :
    run_query python no_query as_it_is all_names no_names same unlimited site
      (user ada)
      plain
      []
      warehouse
      false
      (pos 5)
      five_seconds_on
    ≡ ok (query_result young, hit)
unfolding run_query apply invalid_names join_parameter_list_values missing_params
    collect_query_parameters collect_key_names get_latest is_fresh text_beq gen_query_hash squeeze
    strip_comments comment_here log
hits = refl

too_late :
    run_query python no_query as_it_is all_names no_names same unlimited site
      (user ada)
      plain
      []
      warehouse
      false
      (pos 4)
      five_seconds_on
    ≡ ok (job_started, started)
unfolding run_query apply invalid_names join_parameter_list_values missing_params
    collect_query_parameters collect_key_names get_latest is_fresh text_beq gen_query_hash squeeze
    strip_comments comment_here log
too_late = refl

run_query-cached_example :
    (hit.jobs ≡ site.jobs)
    × (pos 5 ≢ pos 0)
    × Memᴰ young site.store.results
    × (young.data_source_id ≡ warehouse.id)
    × IsYoung five_seconds_on young.retrieved_at (pos 5)
    × (applied : ParameterizedQuery python) × (apply python no_query as_it_is plain [] ≡ ok applied)
    × (young.query_hash ≡ gen_query_hash same (unlimited 4 applied.query false))
run_query-cached_example =
    run_query-cached python no_query as_it_is all_names no_names same unlimited site (user ada)
      plain [] warehouse false (pos 5) five_seconds_on young hit hits

gets : get_result sample (user ada) 1 (some 3) none ≡ ok nine
unfolding get_result require_permissions has_permission permissions or_404 find_query find_result
    require_access has_access guarded_source has_access_to_groups groups_of groups group_ids
gets = refl

get_result-has_access_example :
    Memᴰ nine sample.results
    × (nine.org_id ≡ 1)
    × (has_access sample.groups (guarded_source sample 4) (user ada) true ≡ true)
get_result-has_access_example = get_result-has_access sample (user ada) 1 (some 3) none nine gets

abbrev bearer : ApiUser
bearer = record { id = "q3"; group_ids = 1 ∷ [] }

bearer_gets : get_result sample (api_user bearer) 1 (some 3) none ≡ ok nine
unfolding get_result require_permissions has_permission permissions or_404 find_query find_result
    text_beq require_access has_access guarded_source has_access_to_groups groups_of groups
    group_ids
bearer_gets = refl
