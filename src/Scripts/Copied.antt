-- ===== src/Scripts/Copied.antt =====
-- rctunnel-panel/scripts/sqlite_to_pg.py: what a run leaves, and what a second one does.
use rc_tunnel.Base.{
  ℕ, ◌<◌, ◌≤◌, ◌≡◌, refl, ap, ◌∙◌, sym, Bool, true, false, not, ◌&&◌, ◌==◌, some, List, [], ◌∷◌,
  All, All-weaken, find, length, update, arith, Bool-cases, inl, inr, ok, Text, if◌then◌else◌,
}
use rc_tunnel.Models.{Panel, Team, User, Node, Agent, Tunnel, get_agent}
use rc_tunnel.Agents.{reissue_token, reissued}
use rc_tunnel.Control.Handoff.{reissued-row}
use rc_tunnel.Scripts.Copy.{
  copy_table, max_id, next_id, copy_rows, has_enrolled, burn_tokens, Sequences, reset_sequences,
  sqlite_to_pg,
}

max_id-step :
    {A : Type 0} (id : A → ℕ) (x y : A) (xs : List A)
    → (id x ≤ max_id id (x ∷ y ∷ xs)) × (max_id id (y ∷ xs) ≤ max_id id (x ∷ y ∷ xs))
unfolding max_id
max_id-step id x y xs = ground arith

max_id-above : {A : Type 0} (id : A → ℕ) (xs : List A) → All (λ x. id x ≤ max_id id xs) xs
unfolding max_id
max_id-above id [] = tt
max_id-above id (x ∷ []) = (omega arith, tt)
max_id-above id (x ∷ y ∷ xs) =
    let (own, rest) = max_id-step id x y xs in
    (
      own,
      All-weaken (λ z. id z ≤ max_id id (y ∷ xs)) (λ z. id z ≤ max_id id (x ∷ y ∷ xs)) (y ∷ xs)
          (λ z h. omega arith) (max_id-above id (y ∷ xs)),
    )

-- no id of the table comes again
next_id-above : {A : Type 0} (id : A → ℕ) (xs : List A) → All (λ x. id x < next_id id xs) xs
unfolding next_id
next_id-above id xs =
    All-weaken (λ x. id x ≤ max_id id xs) (λ x. id x < next_id id xs) xs (λ x h. ground arith)
      (max_id-above id xs)

abbrev pub Fresh : Panel → Sequences → Type 0
Fresh p s =
    All (λ (t : Team). t.id < s.team) p.teams
    × All (λ (n : Node). n.id < s.node) p.nodes
    × All (λ (u : User). u.id < s.user) p.users
    × All (λ (a : Agent). a.id < s.agent) p.agents
    × All (λ (t : Tunnel). t.id < s.tunnel) p.tunnels

pub sqlite_to_pg-Fresh : (old new : Panel) → Fresh (sqlite_to_pg old new).0 (sqlite_to_pg old new).1
unfolding sqlite_to_pg reset_sequences
sqlite_to_pg-Fresh old new =
    let p = burn_tokens (copy_rows old new) in
    (
      next_id-above (λ t. t.id) p.teams,
      next_id-above (λ n. n.id) p.nodes,
      next_id-above (λ u. u.id) p.users,
      next_id-above (λ a. a.id) p.agents,
      next_id-above (λ t. t.id) p.tunnels,
    )

length-burnt :
    (rows : List Agent)
    → (length (
          update
            (λ a. not a.token_used && has_enrolled a)
            (λ a. record a { token_used = true })
            rows)
        == 0)
      ≡ (length rows == 0)
length-burnt [] = refl
length-burnt (a ∷ rows) = ground arith

burnt_twice :
    (rows : List Agent)
    → let burn_rows =
        update (λ a. not a.token_used && has_enrolled a) (λ a. record a { token_used = true }) in
      burn_rows (burn_rows rows) ≡ burn_rows rows
burnt_twice [] = refl
burnt_twice (a ∷ rows) = elim (Bool-cases (not a.token_used && has_enrolled a)) [
  | inl e ↦ rw e (ap (λ r. record a { token_used = true } ∷ r) (burnt_twice rows))
  | inr e ↦ rw e (rw e (ap (λ r. a ∷ r) (burnt_twice rows)))
]

length-zero : {A : Type 0} (xs : List A) → (length xs == 0) ≡ true → xs ≡ []
length-zero [] h = refl
length-zero (x ∷ xs) h = absurd (ground arith)

module _ {A : Type 0} (old new : List A) where
  -- a copy is copied again only if there was nothing to copy
  copy_table-again :
      (copy : List A)
      → ((length copy == 0) ≡ true → copy_table old new ≡ [])
      → ((length copy == 0) ≡ true → copy ≡ [])
      → copy_table old copy ≡ copy
  unfolding copy_table
  copy_table-again copy none_copied blank = elim (Bool-cases (length copy == 0)) [
    | inr e ↦ rw e refl
    | inl e ↦ rw e (elim (Bool-cases (length new == 0)) [
      | inl f ↦
          let was : copy_table old new ≡ old = unfold copy_table in rw f refl in
          sym was ∙ none_copied e ∙ sym (blank e)
      | inr f ↦
          let was : copy_table old new ≡ new = unfold copy_table in rw f refl in
          let gone : new ≡ [] = sym was ∙ none_copied e in
          absurd (let bad : (length new == 0) ≡ true = rw gone refl in cc)
    ])
  ]

  copy_table-twice : copy_table old (copy_table old new) ≡ copy_table old new
  copy_table-twice =
      copy_table-again (copy_table old new) (length-zero (copy_table old new))
        (length-zero (copy_table old new))

burn_rows : List Agent → List Agent
burn_rows = update (λ a. not a.token_used && has_enrolled a) (λ a. record a { token_used = true })

-- again
pub sqlite_to_pg-twice :
    (old new : Panel) → sqlite_to_pg old (sqlite_to_pg old new).0 ≡ sqlite_to_pg old new
unfolding sqlite_to_pg copy_rows burn_tokens burn_rows
sqlite_to_pg-twice old new =
    let rows = copy_table old.agents new.agents in
    let same : copy_table old.agents (burn_rows rows) ≡ burn_rows rows =
      copy_table-again old.agents new.agents (burn_rows rows)
        (λ e. length-zero rows (sym (length-burnt rows) ∙ e)) (length-zero (burn_rows rows)) in
    rw
      (
        copy_table-twice old.teams new.teams,
        copy_table-twice old.nodes new.nodes,
        copy_table-twice old.users new.users,
        copy_table-twice old.tunnels new.tunnels,
        same,
        burnt_twice rows,
      )
      refl

find-update :
    (q : Agent → Bool) (f : Agent → Agent) (id : ℕ) (rows : List Agent) (a : Agent)
    → ((x : Agent) → (f x).id ≡ x.id)
    → find (λ x. x.id == id) rows ≡ some a
    → find (λ x. x.id == id) (update q f rows) ≡ some (if q a then f a else a)
find-update q f id [] a keeps h = cc
find-update q f id (x ∷ rows) a keeps h = ground (arith, keeps x, find-update q f id rows a keeps)

found-length :
    (q : Agent → Bool) (rows : List Agent) (a : Agent)
    → find q rows ≡ some a
    → (length rows == 0) ≡ false
found-length q [] a h = absurd (cc)
found-length q (x ∷ rows) a h = ground arith

-- If the token of an agent that has a version or was seen is reissued on the new database, another
-- run of the copy finds that agent there with its new token marked as used.
pub sqlite_to_pg-reissued :
    (old p p' : Panel) (u : User) (id : ℕ) (token : Text) (a : Agent)
    → get_agent p id ≡ some a
    → has_enrolled a ≡ true
    → reissue_token u id token p ≡ ok p'
    → get_agent (sqlite_to_pg old p').0 id ≡ some (record (reissued token a) { token_used = true })
unfolding sqlite_to_pg copy_rows copy_table burn_tokens reissued
sqlite_to_pg-reissued old p p' u id token a here enrolled h =
    let (b, before, after) = reissued-row u id token p p' h in
    let same : b ≡ a = cc in
    let row : get_agent p' id ≡ some (reissued token a) = rw (← same) after in
    let kept : copy_table old.agents p'.agents ≡ p'.agents =
      let some_row = found-length (λ x. x.id == id) p'.agents (reissued token a) row in
      rw (copy_table, some_row) refl in
    let burnt =
      find-update (λ x. not x.token_used && has_enrolled x) (λ x. record x { token_used = true }) id
        p'.agents (reissued token a) (λ x. refl) row in
    rw kept (burnt ∙ rw enrolled refl)
