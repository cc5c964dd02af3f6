-- ===== src/Lib.antt =====
-- RC-Tunnel: the panel (rctunnel-panel/rctunnel_panel) of a multi-tenant tunnel service. Agents behind
-- NAT open tunnels through a data-plane engine (rctunnel-engine); the panel keeps teams, users, agents
-- and tunnels in a database, signs the agents' certificates, pushes to each agent the configuration it
-- should have, and puts into it a signed grant that tells the engine which ports and hosts the agent
-- may register.
--
-- State. Models.antt has the tables of models.py as lists of rows in one record `Panel`, with the
-- file of revoked serials (pki.py) and the list of notified agents (control/bus.py). A handler is a
-- function from the state to `Result`: the new state, or the `HTTPException` it raises, which
-- leaves the state as it was, since nothing is committed. An append to the file of revoked serials
-- may fail, which `revoke_serial` swallows. Ids, times and random tokens are arguments. A helper of
-- the source that reads one setting takes the `Settings` of Settings.antt (config.py). Texts are
-- lists of code points; case and blanks are those of ASCII, save where the labels of a subdomain
-- are checked. Numbers are natural, save the days of a certificate.
--
-- Parts, each with its children:
--   Base        tests, lists, texts, dictionaries, sorted sets, relations on the rows of a table
--   Deps        deps.py and security.py: current_user, require_admin, check_team_access, token claims
--   Schemas     schemas.py: the request bodies and the check on names
--   RateLimit   ratelimit.py: the throttle of logins and enrollments; Table, History
--   Grant       grant.py and the engine's internal/grant/grant.go: sign and Verify; Decimal, RoundTrip
--   Protocol    control/protocol.py: configuration and grant of an agent; Scope, EndToEnd
--   Tunnels     api/tunnels.py: Labels, Domains, Ports (the checks), Handlers (the endpoints), Created
--               and Updated (what success means), Allocation, Exclusive (ports; Requests, Histories), Claims
--               and Hosts (host names; Requests, Histories)
--   Agents      api/agents.py: agents, bootstrap tokens, enrollment; Tokens
--   Manager     control/manager.py: who is connected, and what is pushed; Presence
--   Control     control/server.py: admission by certificate, renewal, messages; Peer (the identity in a
--               certificate), Session, Handoff, Telemetry, Flapping (agents that reconnect too often)
--   Traffic     control/traffic.py: bytes per tunnel and the suspension of teams; Billing, Quota
--   Teams       api/teams.py: tenants and their labels; Slug, Namespaces, Histories
--   Auth        api/auth.py: logins and accounts; Sessions, Admins, Histories
--   Nodes       api/nodes.py: the data-plane nodes
--   Vhosts      web/routes.py: public host names, certificates on demand, the offline page; Lookup
--   Demo        main.py: the middleware that keeps demo accounts from changing anything
--   Audit       main.py and logs.py: the audit log of that middleware
--   Web         web/routes.py: who is shown which page, logins; Access, Windows (uptime),
--               Logs, Exports and Shown (the pages and files made from the search index)
--   Logship     logship.py: to whom a line of the access log is attributed
--   Startup     db.py and main.py: the rows that a start of the panel makes; Tenancy, Lifespan (what keeps it
--               from starting), Migrate, Migrated, Renamed, Settled and Restarted (columns that were added
--               later)
--   Scripts     scripts: Recovery (bootstrap_admin.py), Copy and Copied (sqlite_to_pg.py)
--   Publish     scripts/publish.py: the manifest that agents upgrade from; Listed, Upgraded
--   Pki         pki.py: the certificates that the panel issues; Issued
--   Versions    control/server.py and agent/rctunnel_agent.py: versions, and the offer of an upgrade; Order
--   Supervisor  agent/rctunnel_agent.py and localip.py: Render and Granted (the configuration of the
--               engine client), Engine, Applied and Loaded (its process), Ota, Verified and Offers (upgrades),
--               Boot and Rollback (crash loops), Names, Backups, Restored and Undone (a rollback after an
--               upgrade), Link, Retries and Renewals (connection, certificate)
--   Examples    the theorems at concrete inputs
--
-- They interact as the source's modules do: the endpoints of Tunnels bump the generation of an agent and
-- notify it, Manager builds the configuration of Protocol from the tables, Protocol signs it with Grant,
-- Traffic suspends a team, whose agents Manager then gives an empty configuration, Teams computes the
-- same suspension when a quota changes, Control admits what Agents enrolled, and both login and
-- enrollment ask RateLimit.
--
-- Parameters: the keyed hash of a grant (HMAC-SHA256 in base64url; what is relied on is that no `|`
-- stands in it), `jwt.decode`, the hashing of passwords, the signing of a CSR, and the parsing of an IP
-- address; for the agent a download, SHA-256, the check that code compiles, whether a program starts,
-- and JSON's printer; for the pages of logs the search index, each hit of which has the terms of the
-- query. An enrollment is two steps, its checks and its conditional UPDATE, since other
-- requests may run between them; each other handler is one step. The histories of tunnels, teams and
-- roles are sequences of requests; those of the agent are sequences of what happens to its engine, its
-- connection and its process. The fuel of `decimal` is the number itself plus one, and a number has fewer
-- digits than that; `fetch_from` counts down the three attempts of a download.
--
-- Not modelled: the templates, deployment, and of the engine everything but the grant check; of
-- control/server.py how the serial is read out of a certificate, which is given; of the agent its
-- arguments, signals and timers. What becomes of the agent's copies to and from backups and of the
-- marker of its starts is a parameter (`Copies` and `Disk`), with the failures that the source
-- swallows; a write or a move of a new file that raises in the middle of an upgrade is left out.
pub mod Base
pub mod Settings
pub mod Models
pub mod Deps
pub mod Schemas
pub mod RateLimit
pub mod Grant
pub mod Protocol
pub mod Tunnels
pub mod Agents
pub mod Manager
pub mod Control
pub mod Traffic
pub mod Teams
pub mod Auth
pub mod Nodes
pub mod Vhosts
pub mod Demo
pub mod Audit
pub mod Publish
pub mod Versions
pub mod Supervisor
pub mod Startup
pub mod Scripts
pub mod Pki
pub mod Logship
pub mod Web
pub mod Examples
