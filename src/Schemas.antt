-- ===== src/Schemas.antt =====
-- rctunnel-panel/rctunnel_panel/schemas.py: the request bodies that the handlers read, and the
-- check on names. Numbers in a body are natural.
use rc_tunnel.Base.{
  ℕ, Bool, ◌||◌, Option, none, some, [], ◌∷◌, any, ltb, ◌==◌, Text, strip, Result, ok, raise,
  reject_if, ◌>>=◌, ◌>>◌, empty_name, bad_name,
}
use rc_tunnel.Models.{Role, TunnelType, TunnelOpts}

-- `[\x00-\x1f<>"'`\\]`
abbrev pub is_bad_code : ℕ → Bool
is_bad_code c = ltb c 32 || c == b'<' || c == b'>' || c == 34 || c == 39 || c == 96 || c == 92

named : Text → Result Text
named [] = raise 422 empty_name
named (c ∷ s) = do reject_if (any is_bad_code (c ∷ s)) 422 bad_name; ok (c ∷ s)

-- `_require_name`
unfoldable pub require_name : Text → Result Text
unfolding named
require_name v = named (strip v)

-- `_clean_optional_name`
unfoldable pub clean_optional_name : Option Text → Result (Option Text)
clean_optional_name none = ok none
clean_optional_name (some v) = do name ← require_name v; ok (some name)

-- A field of a PATCH body: absent, or given a value that may be `null`. `exclude_unset` keeps the
-- given ones.
pub data Patch (A : Type 0) : Type 0 where
  unset : Patch A
  given : Option A → Patch A

pub record TunnelCreate : Type 0 where
  pub name : Text
  pub type : TunnelType
  pub local_port : ℕ
  pub local_ip : Text
  pub remote_port : Option ℕ
  pub subdomain : Option Text
  pub custom_domains : Option Text
  pub opts : TunnelOpts

-- There is no `custom_domains` here, so an update never changes them.
pub record TunnelUpdate : Type 0 where
  pub enabled : Patch Bool
  pub local_ip : Patch Text
  pub local_port : Patch ℕ
  pub remote_port : Patch ℕ
  pub subdomain : Patch Text
  pub use_encryption : Patch Bool
  pub use_compression : Patch Bool
  pub bandwidth_limit : Patch Text
  pub health_check_type : Patch Text
  pub health_check_path : Patch Text
  pub http_user : Patch Text
  pub http_password : Patch Text
  pub host_header_rewrite : Patch Text

pub record TeamCreate : Type 0 where
  pub name : Text
  pub subdomain_label : Option Text
  pub quota_bytes : Option ℕ

pub record TeamUpdate : Type 0 where
  pub name : Patch Text
  pub subdomain_label : Patch Text
  pub quota_bytes : Patch ℕ

pub record UserCreate : Type 0 where
  pub email : Text
  pub password : Text
  pub role : Role
  pub team_id : Option ℕ

pub record ProfileUpdate : Type 0 where
  pub email : Option Text
  pub current_password : Option Text
  pub new_password : Option Text

pub record EnrollRequest : Type 0 where
  pub bootstrap_token : Text
  pub csr_pem : Text
  pub os : Option Text
  pub arch : Option Text
