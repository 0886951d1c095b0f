-- ===== src/Controller/Selector.antt =====
-- `RetrieveExpression` of `CustomResource/handler.go`: the label selector of a policy as text.
pub mod Joined
pub mod Reordered
use kubernetes_cluster_monit.Prelude.{ℕ, Bool, List, [], ◌∷◌, ◌++◌, ◌==◌, if◌then◌else◌, is_empty}
use kubernetes_cluster_monit.Prelude.Dict.{Dict}
use kubernetes_cluster_monit.Prelude.Text.{Text, trim_right}
use kubernetes_cluster_monit.Receiver.{ExpressionStruct, PodSelector}

abbrev pub is_comma : ℕ → Bool
is_comma c = c == b','

-- `for k, v := range labelMap`; the list has the order in which this run visits the map. Another run may
-- visit it in another one: that is a list in another order (Reordered).
unfoldable pub labels_onto : Text → Dict → Text
labels_onto expression [] = expression
labels_onto expression ((k, v) ∷ m) = labels_onto (expression ++ (k ++ (b'=' ∷ (v ++ b',' ∷ [])))) m

-- `for _, val := range v.Values`
unfoldable pub values_onto : Text → List Text → Text
values_onto str [] = str
values_onto str (val ∷ vals) = values_onto (str ++ (val ++ b',' ∷ [])) vals

-- `for _, v := range mExpr`
unfoldable pub expressions_onto : Text → List ExpressionStruct → Text
unfolding values_onto
expressions_onto str [] = str
expressions_onto str (e ∷ es) =
    let opened = str ++ (e.key ++ (b' ' ∷ (e.operator ++ b' ' ∷ b'(' ∷ []))) in
    let listed = trim_right is_comma (values_onto opened e.values) in
    expressions_onto (listed ++ b')' ∷ b',' ∷ []) es

unfoldable pub retrieve_expression : PodSelector → Text
unfolding labels_onto expressions_onto
retrieve_expression selector =
    let expression =
      if is_empty selector.labels
      then []
      else trim_right is_comma (labels_onto [] selector.labels) in
    let start = if is_empty expression then [] else b',' ∷ [] in
    if is_empty selector.expression
    then expression
    else expression ++ trim_right is_comma (expressions_onto start selector.expression)
