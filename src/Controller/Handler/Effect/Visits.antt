-- ===== src/Controller/Handler/Effect/Visits.antt =====
-- What a handler's loops over the namespaces and their deployments make of the cluster.
use mathlib.Core.Option
use kubernetes_cluster_monit.Controller.Handler.{visit_namespace}
use kubernetes_cluster_monit.Controller.Handler.Covered.{IsObliging}
use kubernetes_cluster_monit.Controller.Handler.Effect.{Alike}
use kubernetes_cluster_monit.Controller.Handler.Effect.Listed.{
  Changes, done_later, for_each-Changes,
}
use kubernetes_cluster_monit.Kube.{Deployment, Event, History, Kube}
use kubernetes_cluster_monit.Kube.Cluster.{named, HaveNames, Deployed, IsCluster, changed_if}
use kubernetes_cluster_monit.Prelude.{
  ◌≡◌, refl, sym, ap, ◌∙◌, subst, inl, inr, Bool, true, Option, none, some, List, [], ◌∷◌, Memᴰ,
  arith, if◌then◌else◌, Bool-cases, Option-cases, All, All-members, any, any-Mem,
}
use kubernetes_cluster_monit.Prelude.Dict.{Dict}
use kubernetes_cluster_monit.Prelude.Program.{
  Prog, Reply, Completes, call-Completes, bind-Completes, weaken-Completes, check-Completes,
}
use kubernetes_cluster_monit.Prelude.Text.{Text, text_eq, text_eq_iff}

-- A deployment of that name is in the list.
record IsFound (name : Text) (dps : List Deployment) : Type 0 where
  found : Deployment
  is_in : Memᴰ found dps
  found_name : found.name ≡ name

any-IsFound : (name : Text) (dps : List Deployment) → any (named name) dps ≡ true → IsFound name dps
any-IsFound name [] e = ground arith
any-IsFound name (dp ∷ dps) e = elim (Bool-cases (named name dp)) [
  | inl t ↦ record {
    found = dp;
    is_in = Memᴰ.head refl;
    found_name = (text_eq_iff dp.name name).0 t;
  }
  | inr f ↦
      let rest = any-IsFound name dps (ground arith) in
      record { found = rest.found; is_in = Memᴰ.tail rest.is_in; found_name = rest.found_name }
]

pub some-same : {o : Option Deployment} {a b : Deployment} → o ≡ some a → o ≡ some b → a ≡ b
some-same e e' = cc

module _ {k : Kube} (good : IsObliging k) {deployed : Deployed} {selects : Text → Dict → Bool}
    (cluster : IsCluster k deployed selects) (change : Option Dict → Option Dict)
    (Ready : Deployment → Type 0) where
  -- The deployments of a namespace that a selector takes are ready for the change.
  abbrev pub AreReady : Text → Text → History → Type 0
  AreReady sel ns h =
      (name : Text) (dp : Deployment)
      → deployed h ns name ≡ some dp
      → selects sel dp.labels ≡ true
      → Ready dp

  -- A name is in the listing exactly where the selector takes the deployment that has it.
  listed_iff :
      (sel ns : Text) (h : History) (name : Text) (dp : Deployment)
      → deployed h ns name ≡ some dp
      → any (named name) (k.deployments h ns sel).value ≡ selects sel dp.labels
  listed_iff sel ns h name dp e =
      elim (Bool-cases (any (named name) (k.deployments h ns sel).value)) [
        | inl a ↦
            let f = any-IsFound name (k.deployments h ns sel).value a in
            let (e', s) = cluster.shows_deployed h ns sel f.found f.is_in in
            a
            ∙ sym s
            ∙ ap (λ d. selects sel d.labels)
                (some-same (sym (ap (deployed h ns) f.found_name) ∙ e') e)
        | inr a ↦ elim (Bool-cases (selects sel dp.labels)) [
          | inl s ↦
              let m = cluster.shows_all h ns sel name dp e s in
              any-Mem (named name) dp (k.deployments h ns sel).value m
                ((text_eq_iff dp.name name).1 (cluster.has_name h ns name dp e))
              ∙ sym s
          | inr s ↦ a ∙ sym s
        ]
      ]

  -- The deployment of a name after the visit of a namespace.
  abbrev pub visited : Text → Text → (ns' : Text) → Option Deployment → Option Deployment
  visited sel ns ns' o = if text_eq ns ns' then Option.map (changed_if selects change sel) o else o

  listed-visited :
      (sel ns : Text) (h : History) (ns' name : Text)
      → done_later deployed change Ready ns
          (k.deployments h ns sel).value
          ns'
          name
          (deployed h ns' name)
        ≡ visited sel ns ns' (deployed h ns' name)
  listed-visited sel ns h ns' name = elim (Bool-cases (text_eq ns ns')) [
    | inl s ↦ elim (Option-cases (deployed h ns' name)) [
      | inl n ↦ rw (s, n) (ground arith)
      | inr (dp, e) ↦
          rw
            (
              s,
              e,
              listed_iff sel ns h name dp
                  (ap (λ x. deployed h x name) ((text_eq_iff ns ns').0 s) ∙ e),
            )
            (ground arith)
    ]
    | inr f ↦ rw f refl
  ]

  module _ (body : Text → Deployment → Prog Event (Unit {0}) (Unit {0}))
      (changes : Changes deployed change Ready body) (sel : Text) where
    listing-current :
        (ns : Text) (h : History) (reply : Reply (List Deployment)) (h' : History)
        → k.deployments h ns sel ≡ reply
        → Alike deployed h h'
        → AreReady sel ns h
        → All (λ dp. (deployed h' ns dp.name ≡ some dp) × Ready dp) reply.value
    listing-current ns h reply h' same alike ready = All-members _ reply.value λ dp m.
        let (e, s) =
          cluster.shows_deployed h ns sel dp
            (subst (λ (r : Reply (List Deployment)). Memᴰ dp r.value) (sym same) m) in
        (alike ns dp.name ∙ e, ready dp.name dp e s)

    pub visit_namespace-visited :
        (ns : Text) (h : History)
        → AreReady sel ns h
        → Completes (visit_namespace k body sel ns) h (λ _ h'.
          (ns' name : Text) → deployed h' ns' name ≡ visited sel ns ns' (deployed h ns' name))
    unfolding visit_namespace
    visit_namespace-visited ns h ready =
        bind-Completes
          (call-Completes
            {Q = λ r h'. (r.error ≡ none) × (k.deployments h ns sel ≡ r) × Alike deployed h h'} _ _
            h (good.lists h ns sel, refl, λ ns' name. cluster.keeps h _ ns' name refl))
          λ reply h' g (fine, same, alike). check-Completes reply tt _ h' fine (
            weaken-Completes
              (for_each-Changes deployed change Ready ns body changes reply.value h'
                (subst (λ (r : Reply (List Deployment)). HaveNames r.value) same
                  (cluster.shows_once h ns sel))
                (listing-current ns h reply h' same alike ready))
              (λ _ h'' g' all ns' name.
                all ns' name
                ∙ ap (done_later deployed change Ready ns reply.value ns' name) (alike ns' name)
                ∙ ap
                    (λ (r : Reply (List Deployment)).
                      done_later deployed change Ready ns r.value ns' name (deployed h ns' name))
                    (sym same)
                ∙ listed-visited sel ns h ns' name))
