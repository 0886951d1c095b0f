-- ===== src/Controller/Handler/Stops.antt =====
-- Where the handlers end early.
use kubernetes_cluster_monit.Controller.Handler.{
  receiver, remove_policy, visit_namespace, object_deleted,
}
use kubernetes_cluster_monit.Controller.Policy.{unannotate}
use kubernetes_cluster_monit.Controller.Policy.Scope.{scope, for_break-namespaces}
use kubernetes_cluster_monit.Controller.Selector.{retrieve_expression}
use kubernetes_cluster_monit.Keys.{annotation_key}
use kubernetes_cluster_monit.Kube.{Deployment, Event, listed_deployments, History, Kube}
use kubernetes_cluster_monit.Prelude.{
  ◌≡◌, refl, ap, ◌∙◌, Option, none, some, List, [], ◌∷◌, ◌++◌, arith,
}
use kubernetes_cluster_monit.Prelude.Dict.{Dict, lookup, entries}
use kubernetes_cluster_monit.Prelude.Program.{
  Out, next, return, panic, Prog, exit, and_then, ◌>>◌, for_each, program,
}
use kubernetes_cluster_monit.Prelude.Text.{Text}
use kubernetes_cluster_monit.Receiver.{Receiver}

unannotate-none : (a : Option Dict) → lookup annotation_key (entries a) ≡ none → unannotate a ≡ none
unfolding unannotate
unannotate-none none e = refl
unannotate-none (some m) e = ground arith

-- The handler visits the namespaces of `scope`.
pub object_deleted-visits :
    (k : Kube) (r : Receiver) (h : History)
    → object_deleted k (receiver r) h
      ≡ for_each
          (visit_namespace k (remove_policy k) (retrieve_expression r.spec.label_selector))
          (scope r.spec.namespace)
          h
unfolding program object_deleted
object_deleted-visits k r h =
    for_break-namespaces
      (visit_namespace k (remove_policy k) (retrieve_expression r.spec.label_selector))
      r.spec.namespace h

visit_namespace-listed :
    (k : Kube) (each : Text → Deployment → Prog Event (Unit {0}) (Unit {0})) (expression ns : Text)
    (h : History) (dps : List Deployment)
    → k.deployments h ns expression ≡ record { value = dps; error = none }
    → visit_namespace k each expression ns h
      ≡ for_each
          (each ns)
          dps
          (listed_deployments ns expression (record { value = dps; error = none }) ∷ h)
unfolding program visit_namespace
visit_namespace-listed k each expression ns h dps l = rw l

remove_policy-unannotated :
    (k : Kube) (ns : Text) (dp : Deployment) (rest : List Deployment) (h : History)
    → lookup annotation_key (entries dp.annotations) ≡ none
    → for_each (remove_policy k ns) (dp ∷ rest) h ≡ (return tt, h)
unfolding program for_each remove_policy
remove_policy-unannotated k ns dp rest h e = ground (arith, unannotate-none dp.annotations e)

-- The loop over the deployments in front of the first one without the annotation, and the return.
abbrev pub until_unannotated : Kube → Text → List Deployment → Prog Event (Unit {0}) (Unit {0})
until_unannotated k ns front = for_each (remove_policy k ns) front >> exit tt

for_each-unannotated :
    (k : Kube) (ns : Text) (front : List Deployment) (dp : Deployment) (rest : List Deployment)
    (h : History)
    → lookup annotation_key (entries dp.annotations) ≡ none
    → for_each (remove_policy k ns) (front ++ dp ∷ rest) h ≡ until_unannotated k ns front h
unfolding program for_each
for_each-unannotated k ns [] dp rest h e = remove_policy-unannotated k ns dp rest h e
for_each-unannotated k ns (x ∷ front) dp rest h e =
    by_out (λ h'. for_each-unannotated k ns front dp rest h' e) (remove_policy k ns x h).0
      (remove_policy k ns x h).1
  where
    by_out :
        ((h' : History)
          → for_each (remove_policy k ns) (front ++ dp ∷ rest) h' ≡ until_unannotated k ns front h')
        → (o : Out (Unit {0}) (Unit {0})) (h' : History)
        → and_then o (λ _. for_each (remove_policy k ns) (front ++ dp ∷ rest)) h'
          ≡ and_then
              (and_then o (λ _. for_each (remove_policy k ns) front) h').0
              (λ _. exit tt)
              (and_then o (λ _. for_each (remove_policy k ns) front) h').1
    by_out later (next a) h' = later h'
    by_out later (return r) h' = refl
    by_out later panic h' = refl

-- Nothing follows a return.
exit-stops :
    (m n : Prog Event (Unit {0}) (Unit {0})) (h : History)
    → (m >> exit {A = Unit {0}} tt >> n) h ≡ (m >> exit tt) h
unfolding program
exit-stops m n h = by_out (m h).0 (m h).1
  where
    by_out :
        (o : Out (Unit {0}) (Unit {0})) (h' : History)
        → and_then
            (and_then {B = Unit {0}} o (λ _. exit tt) h').0
            (λ _. n)
            (and_then {B = Unit {0}} o (λ _. exit tt) h').1
          ≡ and_then o (λ _. exit tt) h'
    by_out (next a) h' = refl
    by_out (return r) h' = refl
    by_out panic h' = refl

-- A deployment without the annotation ends `ObjectDeleted`: where the listing in the first namespace has
-- one, the whole run is that over the deployments in front of it, and then a return. No deployment behind
-- it, and no other namespace, loses its policy.
pub object_deleted-unannotated :
    (k : Kube) (r : Receiver) (ns : Text) (more : List Text) (h : History) (front : List Deployment)
    (dp : Deployment) (rest : List Deployment)
    → scope r.spec.namespace ≡ ns ∷ more
    → k.deployments h ns (retrieve_expression r.spec.label_selector)
      ≡ record { value = front ++ dp ∷ rest; error = none }
    → lookup annotation_key (entries dp.annotations) ≡ none
    → object_deleted k (receiver r) h
      ≡ until_unannotated k ns front (
          listed_deployments ns
            (retrieve_expression r.spec.label_selector)
            (record { value = front ++ dp ∷ rest; error = none })
          ∷ h)
unfolding program for_each
object_deleted-unannotated k r ns more h front dp rest s l e =
    let expression = retrieve_expression r.spec.label_selector in
    let listed : History =
      listed_deployments ns expression (record { value = front ++ dp ∷ rest; error = none }) ∷ h in
    let body = visit_namespace k (remove_policy k) expression in
    object_deleted-visits k r h
    ∙ ap (λ nss. for_each body nss h) s
    ∙ ap (λ (o : Out (Unit {0}) (Unit {0}) × History). and_then o.0 (λ _. for_each body more) o.1)
        (visit_namespace-listed k (remove_policy k) expression ns h (front ++ dp ∷ rest) l
          ∙ for_each-unannotated k ns front dp rest listed e)
    ∙ exit-stops (for_each (remove_policy k ns) front) (for_each body more) listed
