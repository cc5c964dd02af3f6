-- ===== src/Pki.antt =====
-- rctunnel-panel/rctunnel_panel/pki.py: the panel's certificate authority. A certificate is given by
-- the fields that the code sets, with times in seconds; keys are names. What a CSR holds, new keys,
-- random serials and the parse of an IP address are third-party code: arguments and parameters.
pub mod Issued
use rc_tunnel.Base.{
  ℕ, ◌+◌, ◌-◌, ◌*◌, ◌/◌, ◌&&◌, not, Bool, true, false, Option, none, some, List, [], ◌∷◌, map, ltb,
  leb, Text, codes, ℤ, pos, negsuc, if◌then◌else◌,
}
use rc_tunnel.Versions.{int_ltb}

abbrev pub day : ℕ
day = 24 * 3600

abbrev pub ca_valid_days : ℕ
ca_valid_days = 3650

abbrev pub server_valid_days : ℕ
server_valid_days = 825

abbrev pub renew_before_days : ℕ
renew_before_days = 30

pub data Usage : Type 0 where
  client_auth server_auth key_cert_sign : Usage

-- an entry of the SAN
pub data GeneralName : Type 0 where
  ip_address dns_name : Text → GeneralName

pub record Cert : Type 0 where
  pub subject : Text
  pub issuer : Text
  pub public_key : Text
  pub serial_number : ℕ
  pub not_valid_before : ℕ
  pub not_valid_after : ℕ
  pub is_ca : Bool
  pub sans : List GeneralName
  pub usage : Usage

-- `(not_valid_after - now).days`, which rounds down
unfoldable pub days_until : ℕ → ℕ → ℤ
days_until after now =
    if leb now after then pos ((after - now) / day) else negsuc ((now - after - 1) / day)

-- `cert_days_left`
unfoldable pub cert_days_left : ℕ → Option Cert → Option ℤ
unfolding days_until
cert_days_left now none = none
cert_days_left now (some c) = some (days_until c.not_valid_after now)

-- the files of the directory; what cannot be read as a certificate is `none` inside
pub record PkiDir : Type 0 where
  pub ca_key : Option Text
  pub ca_crt : Option Cert
  pub server_key : Option Text
  pub server_crt : Option (Option Cert)

-- a CSR that parses: its key, and whether its own signature is right
pub record Csr : Type 0 where
  pub public_key : Text
  pub is_signature_valid : Bool

-- `left is not None and left > _RENEW_BEFORE_DAYS`
abbrev pub is_far_off : Option ℤ → Bool
is_far_off none = false
is_far_off (some left) = int_ltb (pos renew_before_days) left

abbrev pub server_fresh : ℕ → Option (Option Cert) → Option Text → Bool
server_fresh now (some crt) (some key) = is_far_off (cert_days_left now crt)
server_fresh now _ _ = false

-- `_create`: the root, and the directory with it
unfoldable pub root_cert : Text → ℕ → ℕ → Cert
root_cert key serial now = record {
  subject = codes "RC-Tunnel Root CA";
  issuer = codes "RC-Tunnel Root CA";
  public_key = key;
  serial_number = serial;
  not_valid_before = now - 300;
  not_valid_after = now + ca_valid_days * day;
  is_ca = true;
  sans = [];
  usage = key_cert_sign;
}

-- `ensure`: the root is loaded if both files are there, and made otherwise
unfoldable pub ensure : Text → ℕ → ℕ → PkiDir → PkiDir × Cert
unfolding root_cert
ensure new_key serial now d = elim d.ca_key [
  | none ↦
      let root = root_cert new_key serial now in
      (record d { ca_key = some new_key; ca_crt = some root }, root)
  | some key ↦ elim d.ca_crt [
    | none ↦
        let root = root_cert new_key serial now in
        (record d { ca_key = some new_key; ca_crt = some root }, root)
    | some root ↦ (d, root)
  ]
]

module _ (is_ip : Text → Bool) where
  -- `_san`
  unfoldable pub san : List Text → List GeneralName
  san [] = []
  san (n ∷ ns) = (if is_ip n then ip_address n else dns_name n) ∷ san ns

  -- `sign_csr`, where `none` is the `ValueError`
  unfoldable pub sign_csr : Cert → Option Csr → Text → ℕ → Bool → ℕ → ℕ → Option Cert
  unfolding san
  sign_csr root none identity days client serial now = none
  sign_csr root (some csr) identity days client serial now =
      if not csr.is_signature_valid
      then none
      else some (record {
        subject = identity;
        issuer = root.subject;
        public_key = csr.public_key;
        serial_number = serial;
        not_valid_before = now - 300;
        not_valid_after = now + days * day;
        is_ca = false;
        sans = san (identity ∷ []);
        usage = if client then client_auth else server_auth;
      })

  -- `ensure_server_cert`, for a name and more of them
  unfoldable pub ensure_server_cert : Cert → Text → List Text → Text → ℕ → ℕ → PkiDir → PkiDir
  unfolding san cert_days_left
  ensure_server_cert root name names new_key serial now d =
      if server_fresh now d.server_crt d.server_key then d else record d {
        server_key = some new_key;
        server_crt = some (
            some (record {
              subject = name;
              issuer = root.subject;
              public_key = new_key;
              serial_number = serial;
              not_valid_before = now - 300;
              not_valid_after = now + server_valid_days * day;
              is_ca = false;
              sans = san (name ∷ names);
              usage = server_auth;
            }));
      }
