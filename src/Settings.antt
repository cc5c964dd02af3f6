-- ===== src/Settings.antt =====
-- rctunnel-panel/rctunnel_panel/config.py: the settings that the modelled code reads.
use rc_tunnel.Base.{ℕ, Bool, true, false, Text, codes, []}

pub record Settings : Type 0 where
  pub public_domain : Text
  pub public_base_url : Text
  pub subdomain_max_depth : ℕ
  pub max_tunnels_per_agent : ℕ
  pub max_custom_domains : ℕ
  pub jwt_secret : Text
  pub cookie_secure : Bool
  pub database_url : Text
  pub agent_cert_days : ℕ
  pub tcp_port_min : ℕ
  pub tcp_port_max : ℕ
  pub port_allow_min : ℕ
  pub port_allow_max : ℕ
  pub rctd_workconn_port : ℕ
  pub rctd_control_port : ℕ
  pub rctd_vhost_port : ℕ
  pub logs_enabled : Bool
  pub grant_secret : Text
  pub node_public_addr : Text
  pub node_token : Text
  pub demo_mode : Bool

-- the defaults of the class
abbrev pub default_settings : Settings
default_settings = record {
  public_domain = codes "rc-tunnel.com";
  public_base_url = codes "https://rc-tunnel.com";
  subdomain_max_depth = 5;
  max_tunnels_per_agent = 100;
  max_custom_domains = 10;
  jwt_secret = codes "change-me";
  cookie_secure = true;
  database_url = codes "sqlite:///./rctunnel-panel.db";
  agent_cert_days = 365;
  tcp_port_min = 10000;
  tcp_port_max = 60000;
  port_allow_min = 1024;
  port_allow_max = 65535;
  rctd_workconn_port = 7001;
  rctd_control_port = 7000;
  rctd_vhost_port = 8090;
  logs_enabled = true;
  grant_secret = [];
  node_public_addr = [];
  node_token = [];
  demo_mode = false;
}
