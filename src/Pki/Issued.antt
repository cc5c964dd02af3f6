-- ===== src/Pki/Issued.antt =====
-- rctunnel-panel/rctunnel_panel/pki.py and control/server.py: what the certificates that the panel
-- issues are good for.
use rc_tunnel.Base.{
  ℕ, ◌≡◌, refl, ap, ◌∙◌, Bool, true, false, Option, none, some, List, Text, arith, Bool-cases, inl,
  inr,
}
use rc_tunnel.Models.{Panel}
use rc_tunnel.Protocol.{agent_cn}
use rc_tunnel.Control.{admit}
use rc_tunnel.Control.Peer.{admit_cert, subject_for, admit_cert-agent_cn}
use rc_tunnel.Pki.{
  Cert, Csr, PkiDir, sign_csr, ensure_server_cert, server_fresh, days_until, cert_days_left,
  client_auth,
}

-- A certificate that the panel signed for an agent's name is one for clients and no authority, and
-- the control server treats whoever presents it as that agent, with the outcome that the agent's
-- row and the serial give.
pub sign_csr-admit_cert :
    (is_ip : Text → Bool) (root : Cert) (csr : Option Csr) (id days n now : ℕ) (cert : Cert)
    (serial : Option ℕ) (p : Panel)
    → sign_csr is_ip root csr (agent_cn id) days true n now ≡ some cert
    → (admit_cert (some (subject_for cert.subject)) serial p ≡ admit (some id) serial p)
      × (cert.usage ≡ client_auth)
      × (cert.is_ca ≡ false)
unfolding sign_csr
sign_csr-admit_cert is_ip root none id days n now cert serial p h = absurd (cc)
sign_csr-admit_cert is_ip root (some csr) id days n now cert serial p h =
    let (named, used, leaf) : (cert.subject ≡ agent_cn id)
        × (cert.usage ≡ client_auth)
        × (cert.is_ca ≡ false) =
      ground arith in
    (
      ap (λ name. admit_cert (some (subject_for name)) serial p) named
          ∙ admit_cert-agent_cn id serial p,
      used,
      leaf,
    )

-- After the control server asked for its certificate, there is one with more than 30 days left.
pub ensure_server_cert-fresh :
    (is_ip : Text → Bool) (root : Cert) (name : Text) (names : List Text) (new_key : Text)
    (n now : ℕ) (d : PkiDir)
    → let d' = ensure_server_cert is_ip root name names new_key n now d in
      server_fresh now d'.server_crt d'.server_key ≡ true
unfolding ensure_server_cert cert_days_left days_until
ensure_server_cert-fresh is_ip root name names new_key n now d =
    elim (Bool-cases (server_fresh now d.server_crt d.server_key)) [
      | inl e ↦ rw (e, e) refl
      | inr e ↦ rw e (ground arith)
    ]
