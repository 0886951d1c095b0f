-- ===== src/Controller/Policy/Annotations.antt =====
-- Writing a policy into annotations and taking it out again.
use kubernetes_cluster_monit.Controller.Policy.{
  Policy, write_policy, annotate, delete_present, strip_policy, unannotate,
}
use kubernetes_cluster_monit.Keys.{
  annotation_key, annotation_value, injected_status_key, group_label_key, action_key,
  log_frequency_key, keys-Differ,
}
use kubernetes_cluster_monit.Prelude.{
  ◌≡◌, ap, ◌∙◌, Bool, false, ◌||◌, Option, none, some, [], arith, if◌then◌else◌,
}
use kubernetes_cluster_monit.Prelude.Dict.{
  Dict, lookup, erase, entries, lookup-insert, lookup-erase,
}
use kubernetes_cluster_monit.Prelude.Text.{Text, text_eq, text_eq_iff, text_eq_refl}

-- The value that a policy gives to a key, `none` for a key that it does not write.
abbrev pub policy_value : Policy → Text → Option Text
policy_value p k =
    if text_eq log_frequency_key k
    then some p.log_frequency
    else if text_eq action_key k
    then some p.action
    else if text_eq group_label_key k
    then some p.group_label
    else if text_eq annotation_key k
    then some annotation_value
    else none

abbrev or_else : Option Text → Option Text → Option Text
or_else none b = b
or_else (some a) b = some a

pub lookup-write_policy :
    (p : Policy) (m : Dict) (k : Text)
    → lookup k (write_policy p m) ≡ or_else (policy_value p k) (lookup k m)
unfolding write_policy
lookup-write_policy p m k = simp lookup-insert (ground arith)

delete_present-erase :
    (k : Text) (m : Dict) → (j : Text) → lookup j (delete_present k m) ≡ lookup j (erase k m)
delete_present-erase k m j = ground (arith, lookup-erase k j m, text_eq_iff k j)

abbrev pub is_policy_key : Text → Bool
is_policy_key k =
    text_eq group_label_key k
    || text_eq log_frequency_key k
    || text_eq action_key k
    || text_eq injected_status_key k
    || text_eq annotation_key k

pub lookup-strip_policy :
    (m : Dict) (k : Text)
    → lookup k (strip_policy m) ≡ (if is_policy_key k then none else lookup k m)
unfolding strip_policy
lookup-strip_policy m k = simp (delete_present-erase, lookup-erase) (ground arith)

-- Every key that the policy writes is one that the handler of a deletion takes out.
policy_value-is_policy_key :
    (p : Policy) (k : Text) → is_policy_key k ≡ false → policy_value p k ≡ none
policy_value-is_policy_key p k h = ground arith

strip-write_policy :
    (p : Policy) (m : Dict) (k : Text)
    → lookup k (strip_policy (write_policy p m)) ≡ (if is_policy_key k then none else lookup k m)
strip-write_policy p m k =
    lookup-strip_policy (write_policy p m) k
    ∙ ground (arith, lookup-write_policy p m k, policy_value-is_policy_key p k)

annotation_key-written :
    (p : Policy) (m : Dict) → lookup annotation_key (write_policy p m) ≡ some annotation_value
annotation_key-written p m = ground (
  arith,
  lookup-write_policy p m annotation_key,
  text_eq_refl annotation_key,
  text_eq_iff log_frequency_key annotation_key,
  text_eq_iff action_key annotation_key,
  text_eq_iff group_label_key annotation_key,
  text_eq_iff annotation_key group_label_key,
  text_eq_iff annotation_key action_key,
  text_eq_iff annotation_key log_frequency_key,
  keys-Differ,
)

-- A deployment that gets the policy has exactly the policy's four values, and every other annotation
-- as before.
pub annotate-lookup :
    (p : Policy) (a : Option Dict) (m : Dict)
    → annotate p a ≡ some m
    → (k : Text) → lookup k m ≡ or_else (policy_value p k) (lookup k (entries a))
unfolding annotate
annotate-lookup p none m h k = ground (arith, lookup-write_policy p [] k)
annotate-lookup p (some a) m h k = ground (arith, lookup-write_policy p a k)

annotate-write :
    (p : Policy) (a : Option Dict) (m : Dict)
    → annotate p a ≡ some m
    → m ≡ write_policy p (entries a)
unfolding annotate
annotate-write p none m h = cc
annotate-write p (some a) m h = ground arith

-- A deployment with a policy is passed over by every later one, which changes nothing in it.
pub annotate-annotate :
    (p q : Policy) (a : Option Dict) (m : Dict) → annotate p a ≡ some m → annotate q (some m) ≡ none
unfolding annotate
annotate-annotate p q a m h =
    rw (annotate-write p a m h)
      (rw (annotation_key-written p (entries a)) (rw (text_eq_refl annotation_value)))

-- Taking a policy out of a deployment that got it succeeds, removes the five keys of the sidecar
-- injection, and leaves every other annotation as it was before the policy came.
pub unannotate-annotate :
    (p : Policy) (a : Option Dict) (m : Dict)
    → annotate p a ≡ some m
    → (m' : Dict) × (unannotate (some m) ≡ some m')
      × ((k : Text) → lookup k m' ≡ (if is_policy_key k then none else lookup k (entries a)))
unfolding unannotate
unannotate-annotate p a m h =
    let e = annotate-write p a m h in
    (
      strip_policy m,
      rw (ap (lookup annotation_key) e ∙ annotation_key-written p (entries a), unannotate),
      λ k. ap (λ n. lookup k (strip_policy n)) e ∙ strip-write_policy p (entries a) k,
    )

-- A policy is taken out once.
pub unannotate-unannotate :
    (a : Option Dict) (m : Dict) → unannotate a ≡ some m → unannotate (some m) ≡ none
unfolding unannotate
unannotate-unannotate none m h = ground arith
unannotate-unannotate (some a) m h =
    ground (arith, lookup-strip_policy a annotation_key, text_eq_refl annotation_key)

-- A deployment that a policy left alone has the annotation already.
pub annotate-none :
    (p : Policy) (a : Option Dict)
    → annotate p a ≡ none
    → unannotate a ≡ some (strip_policy (entries a))
unfolding annotate unannotate annotation_value text_eq
annotate-none p none h = ground arith
annotate-none p (some a) h = ground arith
