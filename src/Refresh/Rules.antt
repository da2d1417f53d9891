-- ===== src/Refresh/Rules.antt =====
-- Which tasks dingolytics/tasks/refresh_queries.py adds to the queue, and which errors it reports.
use mathlib.Core.List.{append_assoc, append-nil}
use dingolytics_backend.Base.{
  contains, find, ℕ, ◌+◌, Bool, false, Option, none, some, List, [], ◌∷◌, ◌++◌, ◌==◌, if◌then◌else◌,
  nat_eq, ◌≡◌, refl, sym, ap, ◌∙◌, Bool-cases, Option-cases, inl, inr,
}
use dingolytics_backend.Base.Dict.{Dict}
use dingolytics_backend.Base.Result.{Exception, Result, ok, err}
use dingolytics_backend.Base.Text.{Text}
use dingolytics_backend.Parameters.Values.{Library, Value, Referred, Definition}
use dingolytics_backend.Store.{Query, DataSource}
use dingolytics_backend.Queries.{outdated_queries}
use dingolytics_backend.Refresh.{
  Task, Site, reports_failure, track_query_error, should_refresh, source_of, skip_message,
  default_text, enqueue, refresh_query, refresh_all, refresh_queries_task,
}

-- What later rounds decide by is the same, and the queue is longer by these tasks.
record Round (site site' : Site) (added : List Task) : Type 0 where
  queue : site'.queue ≡ site.queue ++ added
  orgs : site'.disabled_orgs ≡ site.disabled_orgs
  sources : site'.store.data_sources ≡ site.store.data_sources

track_query_error-Round :
    (site : Site) (q : Query) (message : Text) → Round site (track_query_error site q message) []
unfolding track_query_error
track_query_error-Round site q message =
    elim (Bool-cases (reports_failure site q (q.schedule_failures + 1))) [
      | inl e ↦
          rw (e, track_query_error)
            (record { queue = sym (append-nil site.queue); orgs = refl; sources = refl })
      | inr e ↦
          rw (e, track_query_error)
            (record { queue = sym (append-nil site.queue); orgs = refl; sources = refl })
    ]

abbrev should_at : List ℕ → List DataSource → Query → Option DataSource
should_at orgs sources q =
    if contains orgs q.org_id
    then none
    else elim (elim q.data_source_id as (λ _. Option DataSource) [
      | none ↦ none
      | some id ↦ find (λ s. s.id == id) sources
    ]) [ none ↦ none | some s ↦ if s.paused then none else some s ]

should_refresh_lem :
    (site : Site) (q : Query)
    → should_refresh site q ≡ should_at site.disabled_orgs site.store.data_sources q
unfolding should_refresh source_of
should_refresh_lem site q = refl

should_refresh-Round :
    {added : List Task} (site site' : Site)
    → Round site site' added
    → (q : Query) → should_refresh site' q ≡ should_refresh site q
should_refresh-Round site site' r q =
    should_refresh_lem site' q
    ∙ ap (λ orgs. should_at orgs site'.store.data_sources q) r.orgs
    ∙ ap (λ sources. should_at site.disabled_orgs sources q) r.sources
    ∙ sym (should_refresh_lem site q)

module _ (L : Library) (find_referred : Option ℕ → Result (Referred L))
    (mustache_render : Text → Dict Text (Value L) → Text)
    (apply_auto_limit : ℕ → Text → Bool → Text) (default_value : Definition → Value L) where
  abbrev task_text : Query → Result Text
  task_text q = default_text L find_referred mustache_render apply_auto_limit default_value q

  abbrev pub task_at : DataSource → Query → Result Text → List Task
  task_at s q (err x) = []
  task_at s q (ok text) =
      record {
        query_text = apply_auto_limit s.id text q.apply_auto_limit;
        data_source_id = s.id;
        user_id = q.user_id;
        scheduled_query_id = q.id;
      }
      ∷ []

  -- The task of a query, seen by itself: none if it is not to run, or its defaults are refused.
  abbrev pub task_of : Site → Query → List Task
  task_of site q = elim (should_refresh site q) [ none ↦ [] | some s ↦ task_at s q (task_text q) ]

  abbrev pub tasks_of : Site → List Query → List Task
  tasks_of site [] = []
  tasks_of site (q ∷ queries) = task_of site q ++ tasks_of site queries

  abbrev refreshed : Site → Query → Site
  refreshed site q =
      refresh_query L find_referred mustache_render apply_auto_limit default_value site q

  enqueue-Round :
      (site : Site) (q : Query) (s : DataSource) (text : Result Text)
      → Round site
          (enqueue L find_referred mustache_render apply_auto_limit default_value site q s text)
          (task_at s q text)
  unfolding enqueue
  enqueue-Round site q s (ok text) = record { queue = refl; orgs = refl; sources = refl }
  enqueue-Round site q s (err x) = elim (Option-cases (skip_message q x)) [
    | inl e ↦
        rw (e, enqueue)
          (record { queue = sym (append-nil site.queue); orgs = refl; sources = refl })
    | inr (message, e) ↦ rw (e, enqueue) (track_query_error-Round site q message)
  ]

  refresh_query-Round : (site : Site) (q : Query) → Round site (refreshed site q) (task_of site q)
  unfolding refresh_query
  refresh_query-Round site q = elim (Option-cases (should_refresh site q)) [
    | inl e ↦
        rw (e, refresh_query, task_of)
          (record { queue = sym (append-nil site.queue); orgs = refl; sources = refl })
    | inr (s, e) ↦ rw (e, refresh_query, task_of) (enqueue-Round site q s (task_text q))
  ]

  tasks_of-congr :
      (site site' : Site)
      → ((q : Query) → should_refresh site' q ≡ should_refresh site q)
      → (queries : List Query) → tasks_of site' queries ≡ tasks_of site queries
  tasks_of-congr site site' h [] = refl
  tasks_of-congr site site' h (q ∷ queries) =
      ap
        (λ (o : Option DataSource).
          (elim o as (λ _. List Task) [ none ↦ [] | some s ↦ task_at s q (task_text q) ])
          ++ tasks_of site' queries)
        (h q)
      ∙ ap (λ t. task_of site q ++ t) (tasks_of-congr site site' h queries)

  refresh_all-queue :
      (site : Site) (queries : List Query)
      → (refresh_all L find_referred mustache_render apply_auto_limit default_value site
          queries).queue
        ≡ site.queue ++ tasks_of site queries
  unfolding refresh_all
  refresh_all-queue site [] = sym (append-nil site.queue)
  refresh_all-queue site (q ∷ queries) =
      refresh_all-queue (refreshed site q) queries
      ∙ ap (λ t. (refreshed site q).queue ++ t)
          (tasks_of-congr site (refreshed site q)
            (should_refresh-Round site (refreshed site q) (refresh_query-Round site q)) queries)
      ∙ ap (λ t. t ++ tasks_of site queries) ((refresh_query-Round site q).queue)
      ∙ append_assoc site.queue (task_of site q) (tasks_of site queries)

  -- How the task ends, by the list of the outdated queries or the exception in its place: what it returns or raises, and the queue
  -- that it leaves.
  pub data Ended (site : Site) (result : Result (Unit {0})) (queue : List Task)
      : Result (List Query) → Type 0 where
    all_tried :
        {found : List Query}
        → result ≡ ok tt
        → queue ≡ site.queue ++ tasks_of site found
        → Ended site result queue (ok found)
    no_list :
        {x : Exception} → result ≡ err x → queue ≡ site.queue → Ended site result queue (err x)

  -- Unless it is switched off, if the list of the outdated queries is returned, the task ends without an exception and adds to
  -- the queue exactly the tasks that these queries have each by itself, in their order: a query whose default values are
  -- refused keeps no other from being run. If the list cannot be made, the task ends with that exception and adds nothing.
  pub refresh_queries_task_lem :
      (executions : ℕ → Option ℕ) (now : ℕ) (site : Site) (outdated : Result (List Query))
      → site.refresh_disabled ≡ false
      → (outdated_queries executions site.store.results now site.store.queries).0 ≡ outdated
      → (let (result, site') =
            refresh_queries_task L find_referred mustache_render apply_auto_limit default_value
              executions now site in
          Ended site result site'.queue outdated)
  unfolding refresh_queries_task should_refresh source_of
  refresh_queries_task_lem executions now site (err x) h e = rw (h, e) (no_list refl refl)
  refresh_queries_task_lem executions now site (ok found) h e =
      rw (h, e)
        (all_tried refl (
          refresh_all-queue _ found
          ∙ ap (λ t. site.queue ++ t)
              (tasks_of-congr site
                (record site {
                  store = record site.store {
                    queries =
                        (outdated_queries executions site.store.results now site.store.queries).1;
                  };
                })
                (λ q. refl) found)))
