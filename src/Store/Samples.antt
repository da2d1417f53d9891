-- ===== src/Store/Samples.antt =====
-- A small site for the tests: two users, a data source, two queries and a dashboard that shows one of them.
use dingolytics_backend.Base.{ℕ, true, false, Option, none, some, [], ◌∷◌, Bool}
use dingolytics_backend.Base.Text.{Text, codes}
use dingolytics_backend.Users.{Group, User}
use dingolytics_backend.Execution.{QueryResult}
use dingolytics_backend.Store.{
  null, value, QuerySchedule, empty_schedule, Query, DataSource, Dashboard, ApiKey, Store,
}

abbrev pub ada : User
ada = record {
  id = 7;
  org_id = 1;
  name = "Ada";
  email = "ada@example.org";
  group_ids = 1 ∷ [];
  api_key = "k7";
  disabled_at = none;
}

abbrev pub bob : User
bob = record ada {
  id = 8;
  name = "Bob";
  email = "bob@example.org";
  group_ids = 2 ∷ [];
  api_key = "k8";
  disabled_at = some 5;
}

abbrev pub analysts : Group
analysts = record {
  id = 1;
  org_id = 1;
  type = "regular";
  name = "analysts";
  permissions =
      "create_query" ∷ "edit_query" ∷ "view_query" ∷ "execute_query" ∷ "create_dashboard"
      ∷ "edit_dashboard" ∷ [];
}

abbrev pub every_minute : QuerySchedule
every_minute = record {
  disabled = false;
  until = null;
  interval = value 60;
  time = null;
  day_of_week = null;
}

abbrev pub hash_of : Option ℕ → Text → Bool → Text
hash_of source text auto_limit = text

abbrev pub daily : Query
daily = record {
  id = 3;
  version = 1;
  org_id = 1;
  data_source_id = some 4;
  latest_query_data_id = some 9;
  name = codes "Daily";
  description = none;
  query_text = codes "S1";
  query_hash = codes "S1";
  api_key = "q3";
  user_id = 7;
  is_archived = false;
  is_draft = false;
  is_published = false;
  schedule = some every_minute;
  schedule_failures = 0;
  parameters = [];
  apply_auto_limit = false;
  tags = [];
}

-- The same text on the same data source, without a schedule that can be read.
abbrev pub other : Query
other = record daily { id = 5; user_id = 8; api_key = "q5"; schedule = some empty_schedule }

abbrev pub warehouse : DataSource
warehouse = record { id = 4; org_id = 1; name = codes "W"; paused = false; pause_reason = [] }

abbrev pub nine : QueryResult
nine = record {
  id = 9;
  org_id = 1;
  data_source_id = 4;
  query_hash = codes "S1";
  query_text = codes "S1";
  data_ = [];
  retrieved_at = 1_000_000_000_000;
}

abbrev pub board : Dashboard
board = record {
  id = 2;
  version = 1;
  org_id = 1;
  slug = codes "sales";
  name = codes "Sales";
  user_id = 7;
  is_archived = false;
  is_draft = true;
  tags = [];
}

abbrev pub board_key : ApiKey
board_key = record {
  id = 1;
  org_id = 1;
  api_key = "d2";
  active = true;
  object_type = "dashboards";
  object_id = 2;
  created_by_id = 7;
}

abbrev pub site : Store
site = record {
  groups = analysts ∷ [];
  users = ada ∷ bob ∷ [];
  data_sources = warehouse ∷ [];
  data_source_groups = record { data_source_id = 4; group_id = 1; view_only = false } ∷ [];
  permissions = [];
  queries = daily ∷ other ∷ [];
  results = nine ∷ [];
  visualizations =
      record { id = 6; query_id = 3; type = "TABLE"; name = []; description = none; options = [] }
      ∷ [];
  widgets =
      record {
        id = 1;
        visualization_id = some 6;
        text = none;
        width = 1;
        options = codes "{}";
        dashboard_id = 2;
      }
      ∷ [];
  dashboards = board ∷ [];
  alerts = record { id = 1; query_id = 3 } ∷ [];
  api_keys = board_key ∷ [];
  events = [];
}
