-- ===== src/Nodes.antt =====
-- rctunnel-panel/rctunnel_panel/api/nodes.py: the data-plane nodes. The text of rctd.yml is output
-- only.
use rc_tunnel.Base.{
  ℕ, Option, none, some, List, [], ◌∷◌, ◌++◌, any, Text, text_eq, Result, ok, raise, reject_if,
  ◌>>=◌, ◌>>◌, node_name_exists, node_not_found,
}
use rc_tunnel.Models.{Panel, User, Node, get_node}
use rc_tunnel.Deps.{require_admin}

pub record NodeCreate : Type 0 where
  pub name : Text
  pub public_addr : Text
  pub subdomain_host : Text
  pub control_port : ℕ
  pub vhost_http_port : ℕ

unfoldable pub new_node : ℕ → Text → ℕ → NodeCreate → Node
new_node id token now body = record {
  id = id;
  name = body.name;
  public_addr = body.public_addr;
  control_port = body.control_port;
  vhost_http_port = body.vhost_http_port;
  subdomain_host = body.subdomain_host;
  node_token = token;
  created_at = now;
}

unfoldable pub list_nodes : User → Panel → Result (List Node)
list_nodes u p = do _ ← require_admin u; ok p.nodes

unfoldable pub create_node : User → NodeCreate → ℕ → Text → ℕ → Panel → Result (Panel × Node)
unfolding new_node
create_node u body id token now p = do
  _ ← require_admin u
  reject_if (any (λ n. text_eq n.name body.name) p.nodes) 409 node_name_exists
  let node = new_node id token now body
  ok (record p { nodes = p.nodes ++ (node ∷ []) }, node)

unfoldable pub node_of_id : Option Node → Result Node
node_of_id none = raise 404 node_not_found
node_of_id (some n) = ok n

-- the node whose configuration is exported
unfoldable pub export_rctd : User → ℕ → Panel → Result Node
unfolding node_of_id
export_rctd u id p = do _ ← require_admin u; node_of_id (get_node p id)
