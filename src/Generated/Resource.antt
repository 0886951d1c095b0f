-- ===== src/Generated/Resource.antt =====
-- `informers/externalversions/generic.go`: an informer by the name of its resource. The indexer of a
-- generic lister is that of its informer, by a library.
use kubernetes_cluster_monit.Generated.Factory.{find_type, Factory, informer_for}
use kubernetes_cluster_monit.Generated.Factory.Once.{find_type-put_type}
use kubernetes_cluster_monit.Generated.Informer.{TweakListOptions, InformerParts, receiver_informer}
use kubernetes_cluster_monit.Generated.Requests.{receivers_resource}
use kubernetes_cluster_monit.Generated.Typed.{GroupVersion, scheme_group_version}
use kubernetes_cluster_monit.Prelude.{
  ◌≡◌, refl, sym, ap, ◌∙◌, subst, ◌↔◌, ◌⊎◌, inl, inr, Bool, true, false, ◌&&◌, Option, none, some,
  ◌++◌, arith, if◌then◌else◌, Bool-cases, Option-cases,
}
use kubernetes_cluster_monit.Prelude.Int.{ℤ}
use kubernetes_cluster_monit.Prelude.Program.{Reply}
use kubernetes_cluster_monit.Prelude.Text.{Text, codes, text_eq, text_eq_iff, text_eq_refl}

-- `schema.GroupVersionResource`
pub record GroupVersionResource : Type 0 where
  pub group_version : GroupVersion
  pub resource : Text

-- `schema.GroupResource`
pub record GroupResource : Type 0 where
  pub group : Text
  pub resource : Text

pub record GenericInformer : Type 0 where
  pub informer : InformerParts
  pub resource : GroupResource

-- `v1alpha1.SchemeGroupVersion.WithResource("receivers")`
abbrev pub receivers_gvr : GroupVersionResource
receivers_gvr = record { group_version = scheme_group_version; resource = receivers_resource }

-- `==` of two values of the type
abbrev pub gvr_eq : GroupVersionResource → GroupVersionResource → Bool
gvr_eq a b =
    text_eq a.group_version.group b.group_version.group
    && text_eq a.group_version.version b.group_version.version
    && text_eq a.resource b.resource

-- `ForResource`; `shown` is how `%v` prints a resource.
module _ {Client : Type 0} (shown : GroupVersionResource → Text) where
  unfoldable pub for_resource :
      GroupVersionResource
      → Factory Client TweakListOptions InformerParts
      → Reply (Option GenericInformer) × Factory Client TweakListOptions InformerParts
  for_resource r f =
      let asked = receiver_informer f in
      if gvr_eq r receivers_gvr
      then (
        record {
          value = some (record {
            informer = asked.0;
            resource = record { group = r.group_version.group; resource = r.resource };
          });
          error = none;
        },
        asked.1,
      )
      else (record { value = none; error = some (codes "no informer found for " ++ shown r) }, f)

-- The informer of an answer is the one that the factory keeps.
find_type-informer_for :
    {Client Tweak Informer : Type 0} (t : Text) (new_func : Client → ℤ → Informer)
    (f : Factory Client Tweak Informer)
    → find_type t (informer_for t new_func f).1.informers ≡ some (informer_for t new_func f).0
unfolding informer_for
find_type-informer_for t new_func f = elim (Option-cases (find_type t f.informers)) [
  | inl n ↦ rw (informer_for, n) (rw (find_type-put_type t t _ f.informers, text_eq_refl t) refl)
  | inr (i, e) ↦ rw (informer_for, e) e
]

informer_for-found :
    {Client Tweak Informer : Type 0} (t : Text) (new_func : Client → ℤ → Informer) (i : Informer)
    (f : Factory Client Tweak Informer)
    → find_type t f.informers ≡ some i
    → informer_for t new_func f ≡ (i, f)
unfolding informer_for
informer_for-found t new_func i f e = rw (informer_for, e) refl

-- A second question for a type is answered with the informer of the first, and changes nothing.
informer_for-again :
    {Client Tweak Informer : Type 0} (t : Text) (new_func later : Client → ℤ → Informer)
    (f : Factory Client Tweak Informer)
    → informer_for t later (informer_for t new_func f).1 ≡ informer_for t new_func f
informer_for-again t new_func later f =
    informer_for-found t later _ _ (find_type-informer_for t new_func f)

gvr_eq_iff : (a b : GroupVersionResource) → gvr_eq a b ≡ true ↔ a ≡ b
gvr_eq_iff a b = ground (
  arith,
  text_eq_iff a.group_version.group b.group_version.group,
  text_eq_iff a.group_version.version b.group_version.version,
  text_eq_iff a.resource b.resource,
)

abbrev pub generic_of : GroupVersionResource → InformerParts → GenericInformer
generic_of r i = record {
  informer = i;
  resource = record { group = r.group_version.group; resource = r.resource };
}

for_resource-named :
    {Client : Type 0} (shown : GroupVersionResource → Text) (r : GroupVersionResource)
    (f : Factory Client TweakListOptions InformerParts)
    → gvr_eq r receivers_gvr ≡ true
    → for_resource shown r f ≡ (
      record { value = some (generic_of r (receiver_informer f).0); error = none },
      (receiver_informer f).1,
    )
unfolding for_resource
for_resource-named shown r f e = rw e refl

for_resource-other :
    {Client : Type 0} (shown : GroupVersionResource → Text) (r : GroupVersionResource)
    (f : Factory Client TweakListOptions InformerParts)
    → gvr_eq r receivers_gvr ≡ false
    → for_resource shown r f
      ≡ (record { value = none; error = some (codes "no informer found for " ++ shown r) }, f)
unfolding for_resource
for_resource-other shown r f e = rw e refl

receiver_informer-again :
    {Client : Type 0} (f : Factory Client TweakListOptions InformerParts)
    → receiver_informer (receiver_informer f).1 ≡ receiver_informer f
receiver_informer-again f = informer_for-again (codes "*v1alpha1.Receiver") _ _ f

-- An answer of `ForResource` with an informer that the factory keeps and shares.
pub record IsShared {Client : Type 0} (shown : GroupVersionResource → Text)
    (r : GroupVersionResource) (f : Factory Client TweakListOptions InformerParts) : Type 0 where
  pub generic : GenericInformer
  pub answer : (for_resource shown r f).0 ≡ record { value = some generic; error = none }
  pub by_type :
      receiver_informer (for_resource shown r f).1 ≡ (generic.informer, (for_resource shown r f).1)
  pub by_name : for_resource shown r (for_resource shown r f).1 ≡ for_resource shown r f

for_resource-IsShared :
    {Client : Type 0} (shown : GroupVersionResource → Text) (r : GroupVersionResource)
    (f : Factory Client TweakListOptions InformerParts)
    → gvr_eq r receivers_gvr ≡ true
    → IsShared shown r f
for_resource-IsShared {Client = C} shown r f e = record {
  generic = generic_of r (receiver_informer f).0;
  answer = ap (λ x. x.0) (named f);
  by_type =
      subst (λ x. receiver_informer x ≡ ((receiver_informer f).0, x))
        (sym (ap (λ x. x.1) (named f))) (receiver_informer-again f);
  by_name =
      ap (λ x. for_resource shown r x.1) (named f)
      ∙ named (receiver_informer f).1
      ∙ ap (λ x. answered x) (receiver_informer-again f)
      ∙ sym (named f);
}
  where
    answered :
        InformerParts × Factory C TweakListOptions InformerParts
        → Reply (Option GenericInformer) × Factory C TweakListOptions InformerParts
    answered x = (record { value = some (generic_of r x.0); error = none }, x.1)

    named :
        (g : Factory C TweakListOptions InformerParts)
        → for_resource shown r g ≡ answered (receiver_informer g)
    named g = for_resource-named shown r g e

-- `ForResource` gives exactly the custom resource an informer, and it is the shared one: who asks for it
-- afterwards, by its name or by its type, gets the same and changes nothing. For every other resource
-- there is an error, and the factory stays the same.
pub for_resource_lem :
    {Client : Type 0} (shown : GroupVersionResource → Text) (r : GroupVersionResource)
    (f : Factory Client TweakListOptions InformerParts)
    → (r ≡ receivers_gvr × IsShared shown r f)
      ⊎ (¬ (r ≡ receivers_gvr)
          × for_resource shown r f ≡ (
            record { value = none; error = some (codes "no informer found for " ++ shown r) },
            f,
          ))
for_resource_lem shown r f = elim (Bool-cases (gvr_eq r receivers_gvr)) [
  | inl e ↦ inl ((gvr_eq_iff r receivers_gvr).0 e, for_resource-IsShared shown r f e)
  | inr e ↦
      inr (
        λ same. let yes = (gvr_eq_iff r receivers_gvr).1 same in cc,
        for_resource-other shown r f e,
      )
]
