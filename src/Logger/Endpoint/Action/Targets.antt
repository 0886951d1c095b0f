-- ===== src/Logger/Endpoint/Action/Targets.antt =====
-- The label selector of the deployments to quarantine, for a policy that the controller wrote.

use kubernetes_cluster_monit.Controller.Policy.{group_label_text}
use kubernetes_cluster_monit.Controller.Policy.Groups.{
  IsSeparable, group_label_text-join, split-group_label_text,
}
use kubernetes_cluster_monit.Controller.Selector.{is_comma, labels_onto}
use kubernetes_cluster_monit.Controller.Selector.Joined.{label_text, IsPlainValue, labels_text}
use kubernetes_cluster_monit.Logger.Endpoint.Action.{
  group_separator, target_labels, selector_onto, target_selector,
}
use kubernetes_cluster_monit.Prelude.{
  ◌≡◌, refl, ap, ◌∙◌, subst, ◌≢◌, inl, inr, false, none, some, List, [], ◌∷◌, map, arith,
  Bool-cases, Option-cases, All,
}
use kubernetes_cluster_monit.Prelude.Dict.{Dict, lookup}
use kubernetes_cluster_monit.Prelude.Text.{Text, text_eq, join, trim_right}

-- The labels among `ls` that the pod has, with its values.
abbrev pub chosen : Dict → List Text → Dict
chosen m [] = []
chosen m (l ∷ ls) = elim (lookup l m) [ none ↦ chosen m ls | some v ↦ (l, v) ∷ chosen m ls ]

-- The endpoint writes labels as the controller's selector does.
selector_onto-labels_onto :
    (m : Dict) (acc : Text) (ls : List Text)
    → selector_onto m acc ls ≡ labels_onto acc (chosen m ls)
unfolding selector_onto labels_onto
selector_onto-labels_onto m acc [] = refl
selector_onto-labels_onto m acc (l ∷ ls) = elim (Option-cases (lookup l m)) [
  | inl e ↦ rw (e, selector_onto, chosen) (selector_onto-labels_onto m acc ls)
  | inr (v, e) ↦ rw (e, selector_onto, chosen) (selector_onto-labels_onto m _ ls)
]

found-IsPlainValue :
    (l : Text) (m : Dict) (v : Text)
    → All (λ l. IsPlainValue l.1) m
    → lookup l m ≡ some v
    → IsPlainValue v
unfolding lookup
found-IsPlainValue l [] v h e = absurd (ground arith)
found-IsPlainValue l ((j, w) ∷ m) v h e = elim (Bool-cases (text_eq j l)) [
  | inl q ↦ subst IsPlainValue (cc (rw q at e)) h.0
  | inr q ↦ found-IsPlainValue l m v h.1 (rw q at e)
]

-- Values that are read from the pod's labels are values of it.
chosen-IsPlainValue :
    (m : Dict) (ls : List Text)
    → All (λ l. IsPlainValue l.1) m
    → All (λ l. IsPlainValue l.1) (chosen m ls)
chosen-IsPlainValue m [] h = tt
chosen-IsPlainValue m (l ∷ ls) h = elim (Option-cases (lookup l m)) [
  | inl e ↦ rw (e, chosen) (chosen-IsPlainValue m ls h)
  | inr (v, e) ↦ rw (e, chosen) (found-IsPlainValue l m v h e, chosen-IsPlainValue m ls h)
]

target_selector-join :
    (m : Dict) (ls : List Text)
    → All (λ l. IsPlainValue l.1) m
    → target_selector m ls ≡ join (b',' ∷ []) (map label_text (chosen m ls))
unfolding target_selector
target_selector-join m ls h =
    ap (trim_right is_comma) (selector_onto-labels_onto m [] ls)
    ∙ joined (chosen m ls) (chosen-IsPlainValue m ls h)
  where
    joined :
        (c : Dict)
        → All (λ l. IsPlainValue l.1) c
        → trim_right is_comma (labels_onto [] c) ≡ join (b',' ∷ []) (map label_text c)
    joined [] p = unfold labels_onto trim_right join in refl
    joined (l ∷ c) p = labels_text l c p

join_not_empty :
    (x : Text) (xs : List Text) → x ≢ [] → text_eq (join group_separator (x ∷ xs)) [] ≡ false
unfolding join text_eq
join_not_empty [] xs n = absurd (n refl)
join_not_empty (c ∷ x) [] n = refl
join_not_empty (c ∷ x) (y ∷ ys) n = refl

-- For a pod of a deployment that carries the group labels of a policy, as the controller wrote them,
-- the selector asks for exactly those of the labels that the pod has, with the pod's values, in the
-- order of the policy. There is at least one group label, none is empty, in none two dashes meet or
-- the last byte is a dash, and no value of the pod's labels ends with a comma.
pub target_selector-policy :
    (x : Text) (xs : List Text) (m : Dict)
    → All IsSeparable (x ∷ xs)
    → All (λ t. t ≢ []) (x ∷ xs)
    → All (λ l. IsPlainValue l.1) m
    → target_selector m (target_labels (group_label_text (x ∷ xs)) m)
      ≡ join (b',' ∷ []) (map label_text (chosen m (x ∷ xs)))
unfolding target_labels
target_selector-policy x xs m h n p =
    rw (ap (λ t. text_eq t []) (group_label_text-join x xs h n) ∙ join_not_empty x xs n.0)
      (rw (split-group_label_text x xs h n) (target_selector-join m (x ∷ xs) p))
