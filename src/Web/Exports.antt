-- ===== src/Web/Exports.antt =====
-- rctunnel-panel/rctunnel_panel/web/routes.py: the files that are made of the search index.
use rc_tunnel.Base.{
  Option, none, some, List, [], ◌∷◌, ◌++◌, map, Text, codes, text_eq, if◌then◌else◌,
}
use rc_tunnel.Base.Dict.{get, text_key}
use rc_tunnel.Base.Sorted.{sorted_set, text_ltb}
use rc_tunnel.Models.{Panel}
use rc_tunnel.Deps.{Claims}
use rc_tunnel.Web.{page_user, csv_safe}
use rc_tunnel.Web.Logs.{Index, audit_log, conn_log, LogDoc, Query, recent}

-- `DictWriter`: a field that a row lacks is empty
abbrev text_of : Option Text → Text
text_of none = []
text_of (some v) = v

unfoldable pub cell : List (Text × Option Text) → Text → Text
cell row col = elim (get col row) [ none ↦ [] | some v ↦ csv_safe (text_of v) ]

unfoldable pub all_keys : List LogDoc → List Text
all_keys [] = []
all_keys (d ∷ ds) = map (λ f. f.0) d.fields ++ all_keys ds

-- the lines of the file, each a list of cells
unfoldable pub csv_lines : List LogDoc → List (List Text)
unfolding cell all_keys
csv_lines [] = []
csv_lines (d ∷ ds) =
    let cols = sorted_set text_ltb (all_keys (d ∷ ds)) in
    map csv_safe cols ∷ map (λ r. map (cell r.fields) cols) (d ∷ ds)

abbrev pub export_index : Text → Index
export_index tab = if text_eq tab (codes "conn") then conn_log else audit_log

-- `_export`: the documents, and the file that is made of them; `none` is the redirect
unfoldable pub export_docs :
    (Text → Option Claims)
    → (Index → Query → List LogDoc)
    → Option Text
    → Text
    → Panel
    → Option (List LogDoc)
unfolding recent
export_docs decode search cookie tab p = elim (page_user decode p cookie) [
  | none ↦ none
  | some u ↦ some (recent search (export_index tab) u 1000)
]

unfoldable pub export_csv :
    (Text → Option Claims)
    → (Index → Query → List LogDoc)
    → Option Text
    → Text
    → Panel
    → Option (List (List Text))
unfolding export_docs csv_lines
export_csv decode search cookie tab p = elim (export_docs decode search cookie tab p) [
  | none ↦ none
  | some docs ↦ some (csv_lines docs)
]
