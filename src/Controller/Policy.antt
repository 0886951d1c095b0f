-- ===== src/Controller/Policy.antt =====
-- What the handlers of `CustomResource/handler.go` read out of a policy, and how they change the
-- annotations of a deployment.
pub mod Scope
pub mod Groups
pub mod Annotations
use kubernetes_cluster_monit.Prelude.{
  ℕ, ◌+◌, suc, Bool, List, [], ◌∷◌, ◌++◌, is_empty, length, set, replicate, Option, none, some,
  if◌then◌else◌, ◌==◌,
}
use kubernetes_cluster_monit.Prelude.Int.{ℤ, pos, negsuc}
use kubernetes_cluster_monit.Prelude.Number.{itoa}
use kubernetes_cluster_monit.Prelude.Text.{Text, codes, text_eq, trim_right}
use kubernetes_cluster_monit.Prelude.Dict.{Dict, lookup, get, insert, erase}
use kubernetes_cluster_monit.Keys.{
  annotation_key, annotation_value, injected_status_key, group_label_key, action_key,
  log_frequency_key,
}
use kubernetes_cluster_monit.Receiver.{ReceiverSpec}

-- `for i, val := range rcvr.Spec.Namespace { nspaces[i] = val }`
unfoldable pub assign : ℕ → List Text → List Text → List Text
assign i [] nspaces = nspaces
assign i (val ∷ vals) nspaces = assign (i + 1) vals (set nspaces i val)

abbrev pub default_namespace : Text
default_namespace = codes "default"

-- The array `nspaces`, made one longer than needed.
unfoldable pub namespaces : List Text → List Text
unfolding assign
namespaces given =
    let made = replicate (suc (length given)) [] in
    if is_empty given then set made 0 default_namespace else assign 0 given made

unfoldable pub groups_onto : Text → List Text → Text
groups_onto str [] = str
groups_onto str (val ∷ vals) = groups_onto (str ++ (val ++ b'-' ∷ b'-' ∷ [])) vals

abbrev pub is_dash : ℕ → Bool
is_dash c = c == b'-'

-- `groupLabelString`
unfoldable pub group_label_text : List Text → Text
unfolding groups_onto
group_label_text labels = trim_right is_dash (groups_onto [] labels)

-- `logFreq`
unfoldable pub log_frequency_text : ℤ → Text
log_frequency_text (pos n) = if n == 0 then b'1' ∷ b'0' ∷ [] else itoa (pos n)
log_frequency_text (negsuc n) = itoa (negsuc n)

-- What is written to every deployment that the policy selects.
pub record Policy : Type 0 where
  pub group_label : Text
  pub action : Text
  pub log_frequency : Text

abbrev pub policy : ReceiverSpec → Policy
policy spec = record {
  group_label = group_label_text spec.group_label;
  action = spec.action;
  log_frequency = log_frequency_text spec.log_frequency;
}

-- The four assignments to `dpCopy.Annotations`.
unfoldable pub write_policy : Policy → Dict → Dict
write_policy p m = insert log_frequency_key p.log_frequency (
    insert action_key p.action
      (insert group_label_key p.group_label (insert annotation_key annotation_value m)))

-- The new annotations, or `none` for a deployment that is annotated already.
unfoldable pub annotate : Policy → Option Dict → Option Dict
annotate p none = some (write_policy p [])
annotate p (some m) =
    if text_eq (get annotation_key m) annotation_value then none else some (write_policy p m)

-- `_, ok = m[k]; if ok { delete(m, k) }`
abbrev pub delete_present : Text → Dict → Dict
delete_present k m = elim (lookup k m) [ none ↦ m | some v ↦ erase k m ]

unfoldable pub strip_policy : Dict → Dict
strip_policy m = delete_present group_label_key (
    delete_present log_frequency_key
      (delete_present action_key (delete_present injected_status_key (erase annotation_key m))))

-- The annotations with the policy taken out, or `none` where there is none to take out.
unfoldable pub unannotate : Option Dict → Option Dict
unannotate none = none
unannotate (some m) = elim (lookup annotation_key m) [
  | none ↦ none
  | some v ↦ some (strip_policy m)
]
