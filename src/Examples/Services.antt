-- ===== src/Examples/Services.antt =====
-- The certificate authority, sessions, pages, logs and the start of the panel.
use rc_tunnel.Base.{
  Bool, ◌+◌, ◌*◌, ◌≤◌, ◌≡◌, refl, true, false, none, some, Option, [], ◌∷◌, codes, Text, arith,
  length, raise, ok, integrity_error, Perhaps,
}
use rc_tunnel.Settings.{default_settings}
use rc_tunnel.Models.{Panel, Team}
use rc_tunnel.Deps.{Claims, token_claims}
use rc_tunnel.Protocol.{agent_cn}
use rc_tunnel.Control.{admit}
use rc_tunnel.Control.Peer.{admit_cert, subject_for}
use rc_tunnel.Pki.{Cert, Csr, dns_name, sign_csr, root_cert, client_auth}
use rc_tunnel.Pki.Issued.{sign_csr-admit_cert}
use rc_tunnel.Web.Access.{agent_page, visit, OwnTeam, visit-OwnTeam}
use rc_tunnel.Web.Windows.{came, went, online_intervals, Ordered, online_intervals-Ordered}
use rc_tunnel.Logship.{Entry, to_doc, build_hostmap, Attributed, to_doc-Attributed}
use rc_tunnel.Startup.{seed_default_team}
use rc_tunnel.Startup.Tenancy.{create_team-blocks}
use rc_tunnel.Teams.{create_team}
use rc_tunnel.Schemas.{TeamCreate}
use rc_tunnel.Examples.Data.{root as root_user, panel, ann, acme}

abbrev root : Cert
root = root_cert (codes "ca key") 1 0

abbrev csr : Csr
csr = record { public_key = codes "agent key"; is_signature_valid = true }

abbrev is_ip : Text → Bool
is_ip s = false

abbrev leaf : Cert
leaf = record {
  subject = agent_cn 1;
  issuer = root.subject;
  public_key = codes "agent key";
  serial_number = 7;
  not_valid_before = 700;
  not_valid_after = 1000 + 365 * 86400;
  is_ca = false;
  sans = dns_name (agent_cn 1) ∷ [];
  usage = client_auth;
}

signed_here : sign_csr is_ip root (some csr) (agent_cn 1) 365 true 7 1000 ≡ some leaf
unfolding sign_csr
signed_here = refl

sign_csr-admit_cert_example :
    (admit_cert (some (subject_for leaf.subject)) (some 7) panel ≡ admit (some 1) (some 7) panel)
    × (leaf.usage ≡ client_auth)
    × (leaf.is_ca ≡ false)
sign_csr-admit_cert_example =
    sign_csr-admit_cert is_ip root (some csr) 1 365 7 1000 leaf (some 7) panel signed_here

abbrev decode : Text → Option Claims
decode token = some (token_claims 0 24 ann)

visit-OwnTeam_example :
    OwnTeam (visit decode default_settings (agent_page 1) (some (codes "t")) panel)
visit-OwnTeam_example =
    visit-OwnTeam decode default_settings (some (codes "t")) panel (agent_page 1)

online_intervals-Ordered_example :
    Ordered 10 90 (online_intervals ((20, went) ∷ (30, came) ∷ (40, went) ∷ (50, came) ∷ []) 10 90)
online_intervals-Ordered_example =
    online_intervals-Ordered ((20, went) ∷ (30, came) ∷ (40, went) ∷ (50, came) ∷ []) 10 90
      (omega arith)

abbrev entry : Entry
entry = record {
  host = some (codes "App.acme.rc-tunnel.com:443");
  method = some (codes "GET");
  client_ip = none;
  remote_ip = some (codes "1.1.1.1");
  uri = some (codes "/");
}

to_doc-Attributed_example :
    let doc = to_doc entry (build_hostmap default_settings panel) in
    Perhaps (λ m. Attributed default_settings.public_domain panel (doc.host, m)) doc.meta
    × (length doc.host ≤ 255)
    × Perhaps (λ v. length v ≤ 16) doc.method
    × Perhaps (λ v. length v ≤ 64) doc.src
    × Perhaps (λ v. length v ≤ 2048) doc.target
to_doc-Attributed_example = to_doc-Attributed default_settings panel entry

-- a team `Default`, whose label its name gives
abbrev body : TeamCreate
body = record { name = codes "Default"; subdomain_label = none; quota_bytes = none }

abbrev second : Team
second = record {
  id = 2;
  name = codes "Default";
  subdomain_label = some (codes "default");
  quota_bytes = none;
  suspended = false;
  created_at = 9;
}

abbrev crowded : Panel
crowded = record panel { teams = acme ∷ second ∷ [] }

second_here : create_team root_user body 2 9 panel ≡ ok (crowded, second)
unfolding create_team rc_tunnel.Deps.require_admin rc_tunnel.Teams.is_taken rc_tunnel.Teams.slug
second_here = refl

create_team-blocks_example : seed_default_team 3 10 crowded ≡ raise 500 integrity_error
create_team-blocks_example =
    create_team-blocks root_user body 2 9 3 10 panel crowded second second_here refl refl refl
