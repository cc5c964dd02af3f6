-- ===== src/Tunnels/Allocation.antt =====
-- `_allocate_port`: which port it gives, and when it refuses.
use rc_tunnel.Base.{
  ℕ, zero, suc, ◌+◌, ◌-◌, ◌≤◌, ◌<◌, ◌≡◌, refl, ap, ◌∙◌, true, false, Option, none, some, List,
  arith, member, Bool-cases, Option-cases, inl, inr, ok, ◌↔◌, raise, no_free_ports,
}
use rc_tunnel.Settings.{Settings}
use rc_tunnel.Models.{Panel}
use rc_tunnel.Tunnels.Ports.{used_ports, first_free, allocate_port}

first_free-some :
    (used : List ℕ) (from count port : ℕ)
    → first_free used from count ≡ some port
    → (member port used ≡ false) × (from ≤ port) × (port < from + count)
unfolding first_free
first_free-some used from zero port h = cc
first_free-some used from (suc count) port h = elim (Bool-cases (member from used)) [
  | inl e ↦ ground (arith, first_free-some used (from + 1) count port)
  | inr e ↦ ground arith
]

first_free-before :
    (used : List ℕ) (from count port q : ℕ)
    → first_free used from count ≡ some port
    → from ≤ q
    → q < port
    → member q used ≡ true
unfolding first_free
first_free-before used from zero port q h lo hi = cc
first_free-before used from (suc count) port q h lo hi = elim (Bool-cases (member from used)) [
  | inl e ↦ ground (arith, first_free-before used (from + 1) count port q)
  | inr e ↦ ground arith
]

first_free-none :
    (used : List ℕ) (from count q : ℕ)
    → first_free used from count ≡ none
    → from ≤ q
    → q < from + count
    → member q used ≡ true
unfolding first_free
first_free-none used from zero q h lo hi = absurd (omega arith)
first_free-none used from (suc count) q h lo hi = elim (Bool-cases (member from used)) [
  | inl e ↦ ground (arith, first_free-none used (from + 1) count q)
  | inr e ↦ ground arith
]

module _ (s : Settings) (p : Panel) (n : ℕ) (ex : Option ℕ) where
  -- the range that a port was chosen from
  abbrev pub InRange : Option ℕ → ℕ → Type 0
  InRange (some q) port = (q ≡ port) × (s.port_allow_min ≤ port) × (port ≤ s.port_allow_max)
  InRange none port = (s.tcp_port_min ≤ port) × (port ≤ s.tcp_port_max)

  automatic :
      (port : ℕ)
      → allocate_port s p n none ex ≡ ok port
      → first_free (used_ports p n ex) s.tcp_port_min (s.tcp_port_max + 1 - s.tcp_port_min)
        ≡ some port
  unfolding allocate_port
  automatic port h = ground arith

  -- A port that is allocated is used by no other tunnel of the node, and lies in the allowed
  -- range: it is the preferred one if there is one, and otherwise in the automatic pool.
  pub allocate_port-free :
      (preferred : Option ℕ) (port : ℕ)
      → allocate_port s p n preferred ex ≡ ok port
      → (member port (used_ports p n ex) ≡ false) × InRange preferred port
  unfolding allocate_port
  allocate_port-free (some q) port h = ground arith
  allocate_port-free none port h =
      let (free, lo, hi) = first_free-some _ _ _ port (automatic port h) in
      (free, (omega arith, omega arith))

  -- With no preference the lowest free port of the pool is allocated: every smaller one of the
  -- pool is used.
  pub allocate_port-lowest :
      (port q : ℕ)
      → allocate_port s p n none ex ≡ ok port
      → s.tcp_port_min ≤ q
      → q < port
      → member q (used_ports p n ex) ≡ true
  allocate_port-lowest port q h lo hi = first_free-before _ _ _ port q (automatic port h) lo hi

  -- With no preference an allocation is refused for want of free ports only if every port of the
  -- pool is used.
  pub allocate_port-exhausted :
      (q : ℕ)
      → allocate_port s p n none ex ≡ raise 409 no_free_ports
      → s.tcp_port_min ≤ q
      → q ≤ s.tcp_port_max
      → member q (used_ports p n ex) ≡ true
  unfolding allocate_port
  allocate_port-exhausted q h lo hi =
      first_free-none (used_ports p n ex) s.tcp_port_min (s.tcp_port_max + 1 - s.tcp_port_min) q
        (ground arith) lo (omega arith)

  -- the lowest free port of the pool
  abbrev pub IsLowest : ℕ → Type 0
  IsLowest port =
      (member port (used_ports p n ex) ≡ false)
      × InRange none port
      × ((q : ℕ) → s.tcp_port_min ≤ q → q < port → member q (used_ports p n ex) ≡ true)

  IsLowest-allocated : (port : ℕ) → IsLowest port → allocate_port s p n none ex ≡ ok port
  IsLowest-allocated port (free, range, lower) =
      elim (Option-cases
        (first_free (used_ports p n ex) s.tcp_port_min (s.tcp_port_max + 1 - s.tcp_port_min))) [
          | inl e ↦
              let taken =
                first_free-none (used_ports p n ex) s.tcp_port_min
                  (s.tcp_port_max + 1 - s.tcp_port_min) port e range.0 (omega arith) in
              absurd (ground arith)
          | inr (q, e) ↦
              let at_q : allocate_port s p n none ex ≡ ok q = unfold allocate_port in rw e refl in
              let (unused, lo, hi) =
                first_free-some (used_ports p n ex) s.tcp_port_min
                  (s.tcp_port_max + 1 - s.tcp_port_min) q e in
              let same : q ≡ port =
                ground
                  (arith, lower q lo, allocate_port-lowest q port at_q range.0, free, unused) in
              at_q ∙ ap ok same
        ]

  -- With no preference a port is allocated exactly if it is the lowest of the pool that no other
  -- tunnel of the node uses.
  pub allocate_port-IsLowest : (port : ℕ) → (allocate_port s p n none ex ≡ ok port) ↔ IsLowest port
  allocate_port-IsLowest port = (
    λ h.
        let (free, range) = allocate_port-free none port h in
        (free, range, λ q lo hi. allocate_port-lowest port q h lo hi),
    IsLowest-allocated port,
  )
