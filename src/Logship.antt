-- ===== src/Logship.antt =====
-- rctunnel-panel/rctunnel_panel/logship.py: the documents that are made from the lines of the access
-- log of the web server. A line is given as its decoded fields; a value that is not a text is missing.
-- The time and the duration of a request are passed on and have no part here.
use rc_tunnel.Base.{
  ℕ, ◌≤◌, ◌≡◌, refl, true, Option, none, some, List, [], ◌∷◌, ◌++◌, All, All-weaken, append_assoc,
  sym, ◌∙◌, Perhaps, take, length, length-take-le, arith, Text, lower, split, text_member,
  text_eq_refl, if◌then◌else◌, Bool-cases, Option-cases, inl, inr,
}
use rc_tunnel.Base.Dict.{get, put, put-All, get-All, text_key}
use rc_tunnel.Settings.{Settings}
use rc_tunnel.Models.{Panel, Agent, Tunnel, is_domain_type, get_agent}
use rc_tunnel.Vhosts.{names_of, first_part}

-- whom a host belongs to
pub record Meta : Type 0 where
  pub agent : Text
  pub tunnel : Text
  pub team_id : Option ℕ

abbrev pub HostMap : Type 0
HostMap = List (Text × Meta)

-- `for f in fqdns: out[f] = …`
unfoldable pub put_each : List Text → Meta → HostMap → HostMap
put_each [] meta out = out
put_each (f ∷ fs) meta out = put_each fs meta (put f meta out)

abbrev pub meta_of : Agent → Tunnel → Meta
meta_of a t = record { agent = a.name; tunnel = t.name; team_id = a.team_id }

unfoldable pub hostmap_from : Text → Panel → List Tunnel → HostMap → HostMap
unfolding put_each
hostmap_from apex p [] out = out
hostmap_from apex p (t ∷ ts) out = elim (get_agent p t.agent_id) [
  | none ↦ hostmap_from apex p ts out
  | some a ↦
      let next =
        if is_domain_type t.type then put_each (names_of apex p t) (meta_of a t) out else out in
      hostmap_from apex p ts next
]

unfoldable pub build_hostmap : Settings → Panel → HostMap
unfolding hostmap_from
build_hostmap s p = hostmap_from s.public_domain p p.tunnels []

-- `_cap`
abbrev pub cap : ℕ → Option Text → Option Text
cap n none = none
cap n (some v) = some (take n v)

pub record Entry : Type 0 where
  pub host : Option Text
  pub method : Option Text
  pub client_ip : Option Text
  pub remote_ip : Option Text
  pub uri : Option Text

pub record Doc : Type 0 where
  pub host : Text
  pub meta : Option Meta
  pub method : Option Text
  pub src : Option Text
  pub target : Option Text

abbrev pub or_blank : Option Text → Text
or_blank none = []
or_blank (some s) = s

-- `a or b`
abbrev pub first_of : Option Text → Option Text → Option Text
first_of none b = b
first_of (some []) b = b
first_of (some (c ∷ s)) b = some (c ∷ s)

unfoldable pub to_doc : Entry → HostMap → Doc
to_doc entry hostmap =
    let host = take 255 (first_part (split b':' (lower (or_blank entry.host)))) in
    record {
      host = host;
      meta = get host hostmap;
      method = cap 16 entry.method;
      src = cap 64 (first_of entry.client_ip entry.remote_ip);
      target = cap 2048 entry.uri;
    }

cap-le : (n : ℕ) (v : Option Text) → Perhaps (λ s. length s ≤ n) (cap n v)
cap-le n none = tt
cap-le n (some v) = length-take-le n v

-- a tunnel of the table that stands for the host
abbrev pub Attributed : Text → Panel → Text × Meta → Type 0
Attributed apex p (host, meta) =
    (t : Tunnel) × (a : Agent) × (before : List Tunnel) × (after : List Tunnel) × (p.tunnels
      ≡ before ++ (t ∷ after))
    × (is_domain_type t.type ≡ true)
    × (text_member host (names_of apex p t) ≡ true)
    × (get_agent p t.agent_id ≡ some a)
    × (meta ≡ meta_of a t)

put_each-All :
    (P : Text × Meta → Type 0) (fs : List Text) (meta : Meta) (out : HostMap)
    → All (λ f. P (f, meta)) fs
    → All P out
    → All P (put_each fs meta out)
unfolding put_each
put_each-All P [] meta out k h = h
put_each-All P (f ∷ fs) meta out (kf, k) h =
    put_each-All P fs meta (put f meta out) k (put-All P f meta out kf h)

own-member : (fs : List Text) → All (λ f. text_member f fs ≡ true) fs
own-member [] = tt
own-member (f ∷ fs) =
    (rw (text_eq_refl f) refl, All-weaken _ _ fs (λ g k. ground arith) (own-member fs))

hostmap_from-Attributed :
    (apex : Text) (p : Panel) (before ts : List Tunnel) (out : HostMap)
    → p.tunnels ≡ before ++ ts
    → All (Attributed apex p) out
    → All (Attributed apex p) (hostmap_from apex p ts out)
unfolding hostmap_from
hostmap_from-Attributed apex p before [] out rows h = h
hostmap_from-Attributed apex p before (t ∷ ts) out rows h =
    let rows' : p.tunnels ≡ (before ++ (t ∷ [])) ++ ts =
      rows ∙ sym (append_assoc before (t ∷ []) ts) in
    elim (Option-cases (get_agent p t.agent_id)) [
      | inl e ↦
          rw (hostmap_from, e) (hostmap_from-Attributed apex p (before ++ (t ∷ [])) ts out rows' h)
      | inr (a, e) ↦ elim (Bool-cases (is_domain_type t.type)) [
        | inr f ↦
            rw (hostmap_from, e, f)
              (hostmap_from-Attributed apex p (before ++ (t ∷ [])) ts out rows' h)
        | inl f ↦
            rw (hostmap_from, e, f)
              (hostmap_from-Attributed apex p (before ++ (t ∷ [])) ts _ rows' (
                put_each-All (Attributed apex p) (names_of apex p t) (meta_of a t) out
                  (All-weaken _ _ (names_of apex p t)
                    (λ g k. (t, a, before, ts, rows, f, k, e, refl))
                    (own-member (names_of apex p t)))
                  h))
      ]
    ]

-- A line of the access log is attributed to nobody, or to the agent, the team and the name of an
-- http or https tunnel of the table that stands for the host of the line; its host has at most 255
-- characters, its method 16, its source 64 and its target 2048.
pub to_doc-Attributed :
    (s : Settings) (p : Panel) (entry : Entry)
    → let doc = to_doc entry (build_hostmap s p) in
      Perhaps (λ m. Attributed s.public_domain p (doc.host, m)) doc.meta
      × (length doc.host ≤ 255)
      × Perhaps (λ v. length v ≤ 16) doc.method
      × Perhaps (λ v. length v ≤ 64) doc.src
      × Perhaps (λ v. length v ≤ 2048) doc.target
unfolding to_doc build_hostmap
to_doc-Attributed s p entry =
    let host = take 255 (first_part (split b':' (lower (or_blank entry.host)))) in
    let map_ = hostmap_from s.public_domain p p.tunnels [] in
    (
      elim (Option-cases (get host map_)) [
        | inl e ↦ rw e tt
        | inr (m, e) ↦ rw e (
            get-All (Attributed s.public_domain p) host m map_ e
              (hostmap_from-Attributed s.public_domain p [] p.tunnels [] refl tt))
      ],
      length-take-le 255 _,
      cap-le 16 entry.method,
      cap-le 64 (first_of entry.client_ip entry.remote_ip),
      cap-le 2048 entry.uri,
    )
