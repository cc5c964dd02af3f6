-- ===== src/Tunnels/Hosts.antt =====
-- rctunnel-panel/rctunnel_panel/api/tunnels.py: what it means that tunnels hold different host
-- names, and what `_check_subdomain_unique` and `_check_custom_domains` say about it.
pub mod Requests
pub mod Histories
use rc_tunnel.Base.{
  >>=-eq-ok, ◌>>=◌, ◌⊎◌, ℕ, ◌≡◌, ◌≢◌, refl, sym, ap, subst, fun_ext, ◌∙◌, Bool, true, false, not,
  ◌&&◌, ◌||◌, Option, none, some, List, [], ◌∷◌, arith, ◌==◌, any, find, update, select, All, Pairs,
  Bool-cases, Option-cases, inl, inr, ok, Text, text_eq, text_eq_sym, text_member, lower, reject_if,
  if◌then◌else◌,
}
use rc_tunnel.Base.Sorted.{sorted_set, insert, text_ltb}
use rc_tunnel.Base.Relations.{Distinct}
use rc_tunnel.Settings.{Settings}
use rc_tunnel.Models.{Panel, Agent, Tunnel, get_agent}
use rc_tunnel.Tunnels.Domains.{
  is_excluded, domains_of, clash, reject_clash, check_claims, check_domains, check_custom_domains,
  same_team, lower_is, in_team, takes_subdomain, check_subdomain_unique,
}
use rc_tunnel.Tunnels.Handlers.{bump, bump_row}

abbrev pub team_id_of : Option Agent → Option (Option ℕ)
team_id_of none = none
team_id_of (some a) = some a.team_id

-- the team of a tunnel's agent
abbrev pub owning_team : Panel → Tunnel → Option (Option ℕ)
owning_team p t = team_id_of (get_agent p t.agent_id)

abbrev pub same_owner : Option (Option ℕ) → Option (Option ℕ) → Bool
same_owner (some a) (some b) = same_team a b
same_owner _ _ = false

-- two subdomains that are not empty, and the same when case is ignored
abbrev pub same_subdomain : Option Text → Option Text → Bool
same_subdomain (some (c ∷ s)) (some (d ∷ t)) = text_eq (lower (c ∷ s)) (lower (d ∷ t))
same_subdomain _ _ = false

abbrev pub SubdomainApart : (Tunnel → Option (Option ℕ)) → Tunnel → Tunnel → Type 0
SubdomainApart team t u =
    (same_subdomain t.subdomain u.subdomain && same_owner (team t) (team u)) ≡ false

-- the custom domains of a row
abbrev pub owned_domains : Option Text → List Text
owned_domains none = []
owned_domains (some s) = domains_of s

abbrev pub NoneShared : List Text → List Text → Type 0
NoneShared ds es = (d : Text) → text_member d ds ≡ true → text_member d es ≡ false

abbrev pub DomainsApart : Tunnel → Tunnel → Type 0
DomainsApart t u = NoneShared (owned_domains t.custom_domains) (owned_domains u.custom_domains)

-- The ids of the tunnels are distinct, no two tunnels of a team have the same subdomain, and no two
-- tunnels have a custom domain in common.
pub record HostsOk (p : Panel) : Type 0 where
  pub ids : Distinct (λ t. t.id) p.tunnels
  pub subdomains : Pairs (SubdomainApart (owning_team p)) p.tunnels
  pub domains : Pairs DomainsApart p.tunnels

pub NoneShared-comm : (ds es : List Text) → NoneShared ds es → NoneShared es ds
NoneShared-comm ds es h d k = elim (Bool-cases (text_member d ds)) [
  | inl e ↦ let no = h d e in ground arith
  | inr e ↦ e
]

same_subdomain_comm : (a b : Option Text) → same_subdomain a b ≡ same_subdomain b a
same_subdomain_comm none none = refl
same_subdomain_comm none (some []) = refl
same_subdomain_comm none (some (c ∷ s)) = refl
same_subdomain_comm (some []) none = refl
same_subdomain_comm (some []) (some []) = refl
same_subdomain_comm (some []) (some (c ∷ s)) = refl
same_subdomain_comm (some (c ∷ s)) none = refl
same_subdomain_comm (some (c ∷ s)) (some []) = refl
same_subdomain_comm (some (c ∷ s)) (some (d ∷ t)) = text_eq_sym (lower (c ∷ s)) (lower (d ∷ t))

same_owner_comm : (a b : Option (Option ℕ)) → same_owner a b ≡ same_owner b a
same_owner_comm a b = ground arith

pub SubdomainApart-comm :
    (team : Tunnel → Option (Option ℕ)) (t u : Tunnel)
    → SubdomainApart team t u
    → SubdomainApart team u t
SubdomainApart-comm team t u h =
    rw (same_subdomain_comm u.subdomain t.subdomain, same_owner_comm (team u) (team t)) h

find-bump :
    (k id : ℕ) (rows : List Agent)
    → team_id_of (find (λ a. a.id == k) (update (λ a. a.id == id) bump_row rows))
      ≡ team_id_of (find (λ a. a.id == k) rows)
find-bump k id [] = refl
find-bump k id (a ∷ rows) = ground (arith, find-bump k id rows)

-- a bump of the generation moves no agent to another team
pub owning_team-bump : (p : Panel) (id : ℕ) → owning_team (bump id p) ≡ owning_team p
unfolding bump
owning_team-bump p id = fun_ext (λ t. find-bump t.agent_id id p.agents)

pub HostsOk-bump : (p : Panel) (id : ℕ) → HostsOk p → HostsOk (bump id p)
HostsOk-bump p id h = record {
  ids = unfold bump in h.ids;
  subdomains =
      subst (λ team. Pairs (SubdomainApart team) (bump id p).tunnels) (sym (owning_team-bump p id))
        (unfold bump in h.subdomains);
  domains = unfold bump in h.domains;
}

in_team-eq :
    (p : Panel) (team_id : Option ℕ) (t : Tunnel)
    → in_team p team_id t ≡ same_owner (owning_team p t) (some team_id)
in_team-eq p team_id t = elim (Option-cases (get_agent p t.agent_id)) [
  | inl e ↦ rw (in_team, e) refl
  | inr (a, e) ↦ rw (in_team, e) refl
]

same_subdomain-none : (a : Option Text) → same_subdomain a none ≡ false
same_subdomain-none none = refl
same_subdomain-none (some []) = refl
same_subdomain-none (some (c ∷ s)) = refl

same_subdomain-empty : (a : Option Text) → same_subdomain a (some []) ≡ false
same_subdomain-empty none = refl
same_subdomain-empty (some []) = refl
same_subdomain-empty (some (c ∷ s)) = refl

same_subdomain-lower_is :
    (a : Option Text) (c : ℕ) (s : Text) → same_subdomain a (some (c ∷ s)) ≡ lower_is a (c ∷ s)
same_subdomain-lower_is none c s = refl
same_subdomain-lower_is (some []) c s = refl
same_subdomain-lower_is (some (d ∷ t)) c s = refl

-- a row without a subdomain
no_subdomain-Apart :
    (team : Tunnel → Option (Option ℕ)) (ex : Option ℕ) (row : Tunnel)
    → ((a : Option Text) → same_subdomain a row.subdomain ≡ false)
    → (ts : List Tunnel) → All (λ t. is_excluded ex t ≡ false → SubdomainApart team t row) ts
no_subdomain-Apart team ex row h [] = tt
no_subdomain-Apart team ex row h (t ∷ ts) =
    (λ _. rw (h t.subdomain) refl, no_subdomain-Apart team ex row h ts)

takes_subdomain-kept :
    (p : Panel) (sub : Text) (team_id ex : Option ℕ) (t : Tunnel)
    → is_excluded ex t ≡ false
    → takes_subdomain p sub team_id ex t ≡ (lower_is t.subdomain sub && in_team p team_id t)
unfolding takes_subdomain
takes_subdomain-kept p sub team_id ex t kept = ground arith

not_taken-Apart :
    (p : Panel) (c : ℕ) (sub : Text) (team_id ex : Option ℕ) (row : Tunnel) (ts : List Tunnel)
    → owning_team p row ≡ some team_id
    → row.subdomain ≡ some (c ∷ sub)
    → any (takes_subdomain p (c ∷ sub) team_id ex) ts ≡ false
    → All (λ t. is_excluded ex t ≡ false → SubdomainApart (owning_team p) t row) ts
not_taken-Apart p c sub team_id ex row [] at_team at_sub h = tt
not_taken-Apart p c sub team_id ex row (t ∷ ts) at_team at_sub h = (
  λ kept.
      let known = takes_subdomain-kept p (c ∷ sub) team_id ex t kept in
      rw (at_team, at_sub, same_subdomain-lower_is t.subdomain c sub, ← in_team-eq p team_id t)
        (sym known ∙ free.0),
  not_taken-Apart p c sub team_id ex row ts at_team at_sub free.1,
)
  where
    free :
        (takes_subdomain p (c ∷ sub) team_id ex t ≡ false)
        × (any (takes_subdomain p (c ∷ sub) team_id ex) ts ≡ false)
    free = ground arith

-- A subdomain that passed the check is that of no other tunnel of the team.
pub subdomain-Apart :
    (p : Panel) (sub : Option Text) (team_id ex : Option ℕ) (row : Tunnel)
    → owning_team p row ≡ some team_id
    → row.subdomain ≡ sub
    → check_subdomain_unique p sub team_id ex ≡ ok tt
    → All (λ t. is_excluded ex t ≡ false → SubdomainApart (owning_team p) t row) p.tunnels
unfolding check_subdomain_unique
subdomain-Apart p none team_id ex row at_team at_sub h =
    no_subdomain-Apart (owning_team p) ex row (rw at_sub same_subdomain-none) p.tunnels
subdomain-Apart p (some []) team_id ex row at_team at_sub h =
    no_subdomain-Apart (owning_team p) ex row (rw at_sub same_subdomain-empty) p.tunnels
subdomain-Apart p (some (c ∷ sub)) team_id ex row at_team at_sub h =
    not_taken-Apart p c sub team_id ex row p.tunnels at_team at_sub (ground arith)
