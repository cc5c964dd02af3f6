-- ===== src/Examples/Logs.antt =====
-- The pages and exports of an index with one document.
use rc_tunnel.Base.{
  ℕ, ◌≡◌, refl, true, false, Bool, none, some, Option, List, [], ◌∷◌, codes, arith, inl, inr, All,
  Perhaps, select, ◌&&◌, length, Bool-cases,
}
use rc_tunnel.Deps.{token_claims}
use rc_tunnel.Web.{page_user, same_id, same_id_iff}
use rc_tunnel.Web.Logs.{Index, Query, LogDoc, activity_ctx}
use rc_tunnel.Web.Exports.{export_docs, export_csv}
use rc_tunnel.Web.Shown.{
  Matches, Visible, Inert, ShownOwn, export_docs-Visible, activity_ctx-ShownOwn,
}
use rc_tunnel.Examples.Data.{ann, panel}
use rc_tunnel.Examples.Operations.{decode}

-- an index with one document of team 1, which is found by any query for it
abbrev doc : LogDoc
doc = record {
  team_id = some 1;
  agent_id = some 1;
  fields = (codes "actor", some (codes "=1+1")) ∷ [];
}

abbrev on_team : Option (Option ℕ) → LogDoc → Bool
on_team none d = true
on_team (some t) d = same_id d.team_id t

abbrev on_agent : Option ℕ → LogDoc → Bool
on_agent none d = true
on_agent (some a) d = same_id d.agent_id (some a)

abbrev search : Index → Query → List LogDoc
search idx q = select (λ d. on_team q.team d && on_agent q.agent d) (doc ∷ [])

on_team-Perhaps :
    (t : Option (Option ℕ)) (d : LogDoc) → on_team t d ≡ true → Perhaps (λ k. d.team_id ≡ k) t
on_team-Perhaps none d h = tt
on_team-Perhaps (some t) d h = (same_id_iff d.team_id t).0 h

on_agent-Perhaps :
    (a : Option ℕ) (d : LogDoc) → on_agent a d ≡ true → Perhaps (λ k. d.agent_id ≡ some k) a
on_agent-Perhaps none d h = tt
on_agent-Perhaps (some a) d h = (same_id_iff d.agent_id (some a)).0 h

answers : (idx : Index) (q : Query) → All (Matches q) (search idx q)
answers idx q = elim (Bool-cases (on_team q.team doc && on_agent q.agent doc)) [
  | inl e ↦
      rw e (
        (on_team-Perhaps q.team doc (ground arith), on_agent-Perhaps q.agent doc (ground arith)),
        tt,
      )
  | inr e ↦ rw e tt
]

cookie_here : page_user decode panel (some (codes "token")) ≡ some ann
unfolding page_user token_claims
cookie_here = refl

export_docs-Visible_example :
    Perhaps
      (All (Visible ann))
      (export_docs decode search (some (codes "token")) (codes "conn") panel)
    × Perhaps
        (All (All Inert))
        (export_csv decode search (some (codes "token")) (codes "conn") panel)
export_docs-Visible_example =
    export_docs-Visible search answers decode (some (codes "token")) (codes "conn") panel ann
      cookie_here

abbrev count : Index → Query → ℕ
count idx q = length (search idx q)

activity_ctx-ShownOwn_example :
    ShownOwn ann
      (activity_ctx search count ann panel (codes "devices") false (some (codes "1.0.0")) 500).shown
activity_ctx-ShownOwn_example =
    activity_ctx-ShownOwn search answers count ann panel (codes "devices") false
      (some (codes "1.0.0")) 500 (λ e. cc)
