-- ===== src/Lib.antt =====
-- The core of the Dingolytics backend: whom a request runs as and what it may do, which queries are due and
-- how they are run, what is handed out of their results, and how queries and dashboards are edited and shared.
--
-- Users (redash/models/users.py) holds users, groups and principals. Access (redash/permissions.py)
-- decides by their groups and permissions; Grants (AccessPermission of redash/models/users.py, and
-- Grants.Handlers for redash/handlers/permissions.py) keeps the explicit grants on single objects and
-- guards its endpoints by Access; Grants.Modify joins the two in `can_modify`. Groups (redash/handlers/groups.py, and the group methods of DataSource in
-- redash/models/datasources.py) edits memberships and the data sources that a group may use, which are
-- what Access looks at. Alerts (Alert, OPERATORS and next_state of redash/models/__init__.py) computes the
-- state of an alert, and Alerts.Check (dingolytics/tasks/check_alerts_for_query.py) stores it and notifies.
-- Config (redash/utils/configuration.py) is the container of the options of a data source. Utils
-- (redash/utils/__init__.py) has the text helpers, among them the hash by which results are found.
-- Runner (redash/query_runner/__init__.py) splits, limits and annotates queries, names the columns of
-- results, and Runner.Tunnel wraps a run in an SSH tunnel. Base has the shared types and lemmas.
--
-- Functions keep the names of the source; a table of the database is the list of its rows, a request
-- handler takes the state and returns the new one or the exception that ends it, with `abort` as an
-- exception that carries the HTTP status. A Python dictionary is an association list in the order of
-- insertion. Texts that are worked on by character are lists of code points, with Python's methods over
-- the ASCII letters and blanks. Three functions run on fuel: `next_slug` on one round more than there are dashboards, each
-- of which can take one slug, `sub_comments`
-- on the length of the text, of which each step reads at least one character, and `str_ℕ` on one more than
-- the number, which has no more digits than that.
--
-- Parameters (redash/models/parameterized_query.py) checks the values of a query's parameters, with
-- Parameters.Values for the tests of each kind, and fills them into its text.
--
-- Execution (dingolytics/tasks/run_query.py, dingolytics/queries/errors.py, and the parts of
-- dingolytics/models/results.py and dingolytics/models/queries.py that they call) runs a query by Runner's
-- annotation and Utils' hash, and stores its result or counts a failure.
--
-- Schedule (redash/utils/schedule.py) decides when a scheduled query is due.
--
-- Store has the tables that the following parts share (dingolytics/models/queries.py, redash/models/__init__.py,
-- redash/models/datasources.py), their look-up by id and organization (redash/models/mixins.py) and what Access sees
-- of a query and of a data source. Queries (dingolytics/models/queries.py, dingolytics/tasks/empty_schedules.py) chooses the queries
-- that are due by Schedule, archives and copies them; Queries.Listing has the listings by group and the check
-- on dropdown queries, Queries.Update the endpoints of redash/handlers/queries.py, guarded by Access and Grants.Modify.
-- Results (redash/handlers/query_results.py) runs queries by way of Parameters, answers with cached results
-- of Execution, and hands results out. Dashboards (redash/models/__init__.py, redash/handlers/dashboards.py) makes slugs
-- and keeps the keys of shared dashboards; Dashboards.Handlers creates, changes and archives them. Authentication
-- (redash/authentication/__init__.py) finds the principal of a request by a key, a signature, a session or a token. Paging
-- (redash/handlers/base.py) cuts listings into pages. Sources (redash/models/datasources.py, redash/handlers/data_sources.py)
-- lists, deletes, pauses and resumes data sources.
--
-- Endpoints (dingolytics/api/endpoints.py) answers published queries by a token, with the literals that it makes of a request's
-- values. Accounts (redash/handlers/users.py) creates, changes, disables and deletes users, on rows with more columns than those of
-- Users; Alerts.Handlers (redash/handlers/alerts.py) edits alerts and subscriptions. Refresh (dingolytics/tasks/refresh_queries.py)
-- puts the outdated queries of Queries into the queue, Cleanup (dingolytics/tasks/cleanup_results.py) deletes the unused results
-- of Execution, and Reports (dingolytics/tasks/failure_reports.py) sums up the failures that Refresh and Execution count.
--
-- Widgets (redash/handlers/dashboard_widgets.py, redash/handlers/visualizations.py) edits what the dashboards of Dashboards show, and
-- Widgets.View (redash/serializers/__init__.py, redash/handlers/dashboards.py) decides how much of that a user gets to see.
-- CrossQueries (redash/query_runner/query_results.py) is the data source whose queries read the results of other queries.
--
-- Section parameters stand for code outside the repository: `Floats` for Python's floats, `Validator` for
-- jsonschema, `Parser` for sqlparse, `Library` for dateutil and Python's `float` and `str`, `open_tunnel` for sshtunnel, a function on texts for MD5, `hmac` for
-- HMAC with SHA-1, `paginate_query` for the pages of flask_sqlalchemy, `has_changes` for SQLAlchemy's decision whether a
-- row is written, `mustache_render`, `distinct` and `parse` for pystache and funcy. The record `Environment` of CrossQueries has what
-- that runner calls of SQLite and of the other runners.
--
-- Not modelled: anonymous requests, which are turned away before this code runs; serialization to JSON,
-- templates and mail; sessions of Flask and single sign-on; drivers of databases; full-text
-- search; the formats of results; favorites and the settings of an organization; streams, of which the deletion of a data source
-- takes the data sources that they refer to.
pub mod Access
pub mod Accounts
pub mod Alerts
pub mod Authentication
pub mod Base
pub mod Cleanup
pub mod Config
pub mod CrossQueries
pub mod Dashboards
pub mod Endpoints
pub mod Execution
pub mod Grants
pub mod Groups
pub mod Paging
pub mod Parameters
pub mod Queries
pub mod Refresh
pub mod Reports
pub mod Results
pub mod Runner
pub mod Schedule
pub mod Sources
pub mod Store
pub mod Users
pub mod Utils
pub mod Widgets
