-- ===== src/Audit.antt =====
-- rctunnel-panel/rctunnel_panel/main.py and logs.py: the audit log that the middleware keeps. The
-- documents that are handed to the search index stand in order; what the index does with them has no
-- part here.
use rc_tunnel.Base.{
  ℕ, ◌≡◌, refl, ap, sym, ◌∙◌, Bool, true, ◌&&◌, ◌||◌, Option, none, some, List, [], ◌∷◌, ◌++◌, ltb,
  Text, codes, starts_with, Bool-cases, Option-cases, inl, inr, arith, ok, if◌then◌else◌,
}
use rc_tunnel.Base.Relations.{find-key}
use rc_tunnel.Settings.{Settings}
use rc_tunnel.Models.{Panel, User, get_user}
use rc_tunnel.Deps.{Claims, Request, extract_token, current_user}
use rc_tunnel.Demo.{Method, HttpRequest, is_mutating_api, is_demo, token_role}

-- `needle in s`
unfoldable pub contains : Text → Text → Bool
contains needle [] = starts_with needle []
contains needle (c ∷ s) = starts_with needle (c ∷ s) || contains needle s

-- `_resource`, with what is looked for
abbrev pub resources : List (Text × Text)
resources =
    (codes "/tunnels", codes "tunnel")
    ∷ (codes "/members/", codes "team.member")
    ∷ (codes "/agents", codes "agent")
    ∷ (codes "/nodes", codes "node")
    ∷ (codes "/teams", codes "team")
    ∷ (codes "/auth/users", codes "user")
    ∷ (codes "/auth/me", codes "profile")
    ∷ []

unfoldable pub first_named : List (Text × Text) → Text → Text
unfolding contains
first_named [] path = codes "resource"
first_named ((needle, res) ∷ more) path =
    let rest = first_named more path in if contains needle path then res else rest

unfoldable pub resource : Text → Text
unfolding first_named
resource path = first_named resources path

-- the table of the methods that change something; `get` is not in it
abbrev pub action_name : Method → Text
action_name Method.get = []
action_name Method.post = codes "create"
action_name Method.patch = codes "update"
action_name Method.put = codes "update"
action_name Method.delete = codes "delete"

unfoldable pub action_of : HttpRequest → Text
unfolding contains
action_of r = if contains (codes "/members/") r.path then codes "update" else action_name r.method

-- a document, besides its time
pub record AuditDoc : Type 0 where
  pub actor : Text
  pub action : Text
  pub label : Text
  pub target : Text
  pub ip : Option Text
  pub team_id : Option ℕ

-- `audit`, through `index`
unfoldable pub audit : Settings → AuditDoc → List AuditDoc
audit s doc = if s.logs_enabled then doc ∷ [] else []

unfoldable pub audit_entry : Text × Option ℕ → Option Text → HttpRequest → AuditDoc
unfolding action_of resource
audit_entry (actor, team) ip r = record {
  actor = actor;
  action = action_of r;
  label = resource r.path ++ (b'.' ∷ action_of r);
  target = r.path;
  ip = ip;
  team_id = team;
}

abbrev pub anonymous : Text × Option ℕ
anonymous = (codes "anonymous", none)

abbrev pub named_user : Option User → Text × Option ℕ
named_user none = anonymous
named_user (some u) = (u.email, u.team_id)

module _ (decode : Text → Option Claims) where
  abbrev pub claimed_user : Panel → Option Claims → Text × Option ℕ
  claimed_user p none = anonymous
  claimed_user p (some c) = named_user (get_user p c.sub)

  abbrev pub token_actor : Panel → Option Text → Text × Option ℕ
  token_actor p none = anonymous
  token_actor p (some []) = anonymous
  token_actor p (some (c ∷ token)) = claimed_user p (decode (c ∷ token))

  -- `_actor`
  unfoldable pub actor_of : Panel → Request → Text × Option ℕ
  actor_of p r = token_actor p (extract_token r)

  -- the middleware, with the documents that it writes
  unfoldable pub audited :
      (HttpRequest → Panel → Panel × ℕ)
      → Settings
      → Option Text
      → HttpRequest
      → Panel
      → Panel × ℕ × List AuditDoc
  unfolding actor_of audit audit_entry
  audited call_next s ip r p =
      if is_mutating_api r && is_demo (token_role decode r.auth)
      then (p, 403, [])
      else let (p', status) = call_next r p in
        (
          p',
          status,
          if is_mutating_api r && ltb status 400
              then audit s (audit_entry (actor_of p' r.auth) ip r)
              else [],
        )

  -- the user of a token, in a later state
  actor_of-user :
      (p p' : Panel) (r : Request) (u u' : User)
      → current_user decode p r ≡ ok u
      → get_user p' u.id ≡ some u'
      → actor_of p' r ≡ (u'.email, u'.team_id)
  actor_of-user p p' r u u' h later = elim (Option-cases (extract_token r)) [
    | inl e ↦ absurd (unfold current_user in ground arith)
    | inr ([], e) ↦ absurd (unfold current_user in ground arith)
    | inr (c ∷ token, e) ↦ elim (Option-cases (decode (c ∷ token))) [
      | inl f ↦ absurd (unfold current_user in ground arith)
      | inr (claims, f) ↦ elim (Option-cases (get_user p claims.sub)) [
        | inl g ↦ absurd (unfold current_user in ground arith)
        | inr (v, g) ↦
            let same : v ≡ u = unfold current_user in ground arith in
            let id : u.id ≡ claims.sub =
              ap (λ (x : User). x.id) (sym same) ∙ find-key (λ x. x.id) claims.sub p.users v g in
            let there : get_user p' claims.sub ≡ some u' = ap (get_user p') (sym id) ∙ later in
            unfold actor_of in rw (e, f, there) refl
      ]
    ]
  ]

  -- A request that would change something through the API writes exactly one entry to the audit
  -- log if it is answered with a status below 400, and none otherwise. The entry names the email
  -- and the team, in the state after the request, of the user whom the token of the request
  -- authenticates. The log is enabled, and that user's id still finds a row.
  pub audited-actor :
      (call_next : HttpRequest → Panel → Panel × ℕ) (s : Settings) (ip : Option Text)
      (r : HttpRequest) (p : Panel) (u u' : User)
      → let (p', status, docs) = audited call_next s ip r p in
        s.logs_enabled ≡ true
        → is_mutating_api r ≡ true
        → current_user decode p r.auth ≡ ok u
        → get_user p' u.id ≡ some u'
        → docs ≡ (if ltb status 400 then audit_entry (u'.email, u'.team_id) ip r ∷ [] else [])
  audited-actor call_next s ip r p u u' on change mine later =
      elim (Bool-cases (is_demo (token_role decode r.auth))) [
        | inl e ↦
            let refused : audited call_next s ip r p ≡ (p, 403, []) =
              unfold audited in rw (change, e) refl in
            rw refused refl
        | inr e ↦
            let (q, status) = call_next r p in
            let done : audited call_next s ip r p ≡ (
              q,
              status,
              if ltb status 400 then audit s (audit_entry (actor_of q r.auth) ip r) else [],
            ) =
              unfold audited in rw (change, e) refl in
            let there : get_user q u.id ≡ some u' =
              ap (λ (t : Panel × ℕ × List AuditDoc). get_user t.0 u.id) (sym done) ∙ later in
            let who = actor_of-user p q r.auth u u' mine there in
            rw done (rw who (unfold audit in rw on refl))
      ]
