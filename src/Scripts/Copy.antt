-- ===== src/Scripts/Copy.antt =====
-- rctunnel-panel/scripts/sqlite_to_pg.py: the rows of one database copied into another. What the
-- script prints has no part here.
use rc_tunnel.Base.{
  ℕ, suc, Bool, true, false, not, ◌&&◌, ◌||◌, ◌==◌, Option, none, some, List, [], ◌∷◌, length, leb,
  update, if◌then◌else◌,
}
use rc_tunnel.Models.{Panel, Agent}

module _ {A : Type 0} where
  -- a table that has rows is left alone
  unfoldable pub copy_table : List A → List A → List A
  copy_table old new = if length new == 0 then old else new

  -- `COALESCE(MAX(id), 1)`
  unfoldable pub max_id : (A → ℕ) → List A → ℕ
  max_id id [] = 1
  max_id id (x ∷ []) = id x
  max_id id (x ∷ y ∷ xs) = let rest = max_id id (y ∷ xs) in if leb (id x) rest then rest else id x

  -- `setval(…, GREATEST(…, 1))`: the id of the next row
  unfoldable pub next_id : (A → ℕ) → List A → ℕ
  unfolding max_id
  next_id id xs = suc (if leb (max_id id xs) 1 then 1 else max_id id xs)

unfoldable pub copy_rows : Panel → Panel → Panel
unfolding copy_table
copy_rows old new = record new {
  teams = copy_table old.teams new.teams;
  nodes = copy_table old.nodes new.nodes;
  users = copy_table old.users new.users;
  agents = copy_table old.agents new.agents;
  tunnels = copy_table old.tunnels new.tunnels;
}

abbrev pub is_not_null {ℓ} : {A : Type ℓ} → Option A → Bool
is_not_null none = false
is_not_null (some a) = true

abbrev pub has_enrolled : Agent → Bool
has_enrolled a = is_not_null a.agent_version || is_not_null a.last_seen

-- `UPDATE agents SET token_used = true WHERE …`
unfoldable pub burn_tokens : Panel → Panel
burn_tokens p = record p {
  agents =
      update (λ a. not a.token_used && has_enrolled a) (λ a. record a { token_used = true })
        p.agents;
}

-- the next ids of the five tables
pub record Sequences : Type 0 where
  pub team : ℕ
  pub node : ℕ
  pub user : ℕ
  pub agent : ℕ
  pub tunnel : ℕ

unfoldable pub reset_sequences : Panel → Sequences
unfolding next_id
reset_sequences p = record {
  team = next_id (λ t. t.id) p.teams;
  node = next_id (λ n. n.id) p.nodes;
  user = next_id (λ u. u.id) p.users;
  agent = next_id (λ a. a.id) p.agents;
  tunnel = next_id (λ t. t.id) p.tunnels;
}

unfoldable pub sqlite_to_pg : Panel → Panel → Panel × Sequences
unfolding copy_rows burn_tokens reset_sequences
sqlite_to_pg old new = let p = burn_tokens (copy_rows old new) in (p, reset_sequences p)
