-- ===== src/Controller/Handler/Effect/Listed.antt =====
-- The loop of a handler over the deployments of a namespace: what it makes of the cluster.
use mathlib.Core.Option
use kubernetes_cluster_monit.Controller.Handler.Effect.{Replaced}
use kubernetes_cluster_monit.Kube.{Deployment, Event, History}
use kubernetes_cluster_monit.Kube.Cluster.{named, HaveNames, Deployed, changed_by}
use kubernetes_cluster_monit.Prelude.{
  ◌≡◌, refl, sym, ap, ◌∙◌, subst, inl, inr, false, ◌&&◌, Option, some, List, [], ◌∷◌, arith,
  if◌then◌else◌, Bool-cases, all, All, any,
}
use kubernetes_cluster_monit.Prelude.Dict.{Dict}
use kubernetes_cluster_monit.Prelude.Program.{
  Prog, for_each, Completes, weaken-Completes, for_each_rest-Completes,
}
use kubernetes_cluster_monit.Prelude.Text.{Text, text_eq, text_eq_iff, text_eq_refl}

-- A body of the loop that replaces the deployment it is given as `change` has it, where `Ready` holds.
abbrev pub Changes :
    Deployed
    → (Option Dict → Option Dict)
    → (Deployment → Type 0)
    → (Text → Deployment → Prog Event (Unit {0}) (Unit {0}))
    → Type 0
Changes deployed change Ready body =
    (ns : Text) (dp : Deployment) (h : History)
    → deployed h ns dp.name ≡ some dp
    → Ready dp
    → Completes (body ns dp) h (λ _ h'. Replaced deployed ns dp (changed_by change dp) h h')

pub Replaced-self :
    (deployed : Deployed) (ns : Text) (dp : Deployment) (h : History)
    → deployed h ns dp.name ≡ some dp
    → Replaced deployed ns dp dp h h
Replaced-self deployed ns dp h e ns' name = elim (Bool-cases (text_eq ns ns' && named name dp)) [
  | inl t ↦ rw t (
      ap (λ x. deployed h x name) (sym ((text_eq_iff ns ns').0 (ground (arith, t))))
      ∙ ap (deployed h ns) (sym ((text_eq_iff dp.name name).0 (ground (arith, t))))
      ∙ e)
  | inr f ↦ rw f refl
]

module _ (deployed : Deployed) (change : Option Dict → Option Dict) (Ready : Deployment → Type 0)
    (ns : Text) where
  -- What the rest of the loop makes of the deployment of a name.
  abbrev pub done_later :
      List Deployment → (ns' name : Text) → Option Deployment → Option Deployment
  done_later rest ns' name o =
      if text_eq ns ns' && any (named name) rest then Option.map (changed_by change) o else o

  done_later-nil : (ns' name : Text) (o : Option Deployment) → done_later [] ns' name o ≡ o
  done_later-nil ns' name o = ground arith

  abbrev Current : History → Deployment → Type 0
  Current h dp = (deployed h ns dp.name ≡ some dp) × Ready dp

  record Pending (dps : List Deployment) (h₀ : History) (rest : List Deployment) (h : History)
      : Type 0 where
    have_names : HaveNames rest
    current : All (Current h) rest
    total :
        (ns' name : Text)
        → done_later rest ns' name (deployed h ns' name)
          ≡ done_later dps ns' name (deployed h₀ ns' name)

  Current-Replaced :
      (dp new : Deployment) (rest : List Deployment) (h h' : History)
      → any (named dp.name) rest ≡ false
      → Replaced deployed ns dp new h h'
      → All (Current h) rest
      → All (Current h') rest
  Current-Replaced dp new [] h h' f r all = tt
  Current-Replaced dp new (d ∷ rest) h h' f r ((e, ready), all) = (
    (
      r ns d.name ∙ ground (arith, text_eq_iff dp.name d.name, text_eq_iff d.name dp.name) ∙ e,
      ready,
    ),
    Current-Replaced dp new rest h h' (ground arith) r all,
  )

  abbrev IsStep : Deployment → List Deployment → History → History → (ns' name : Text) → Type 0
  IsStep dp rest h h' ns' name =
      done_later rest ns' name (deployed h' ns' name)
      ≡ done_later (dp ∷ rest) ns' name (deployed h ns' name)

  Replaced-IsStep :
      (dp : Deployment) (rest : List Deployment) (h h' : History)
      → any (named dp.name) rest ≡ false
      → deployed h ns dp.name ≡ some dp
      → Replaced deployed ns dp (changed_by change dp) h h'
      → (ns' name : Text) → IsStep dp rest h h' ns' name
  Replaced-IsStep dp rest h h' new e r ns' name = elim (Bool-cases (text_eq ns ns')) [
    | inl s ↦
        subst (λ x. IsStep dp rest h h' x name) ((text_eq_iff ns ns').0 s)
          (elim (Bool-cases (named name dp)) [
            | inl t ↦ subst (IsStep dp rest h h' ns) ((text_eq_iff dp.name name).0 t) there
            | inr f ↦ rw f (ap (done_later rest ns name) (r ns name ∙ rw (text_eq_refl ns, f) refl))
          ])
    | inr f ↦ rw f (r ns' name ∙ rw f refl)
  ]
    where
      there : IsStep dp rest h h' ns dp.name
      there =
          rw (text_eq_refl ns, text_eq_refl dp.name, new, e)
            (r ns dp.name ∙ rw (text_eq_refl ns, text_eq_refl dp.name) refl)

  Pending-step :
      (dps : List Deployment) (h₀ : History) (dp : Deployment) (rest : List Deployment)
      (h h' : History)
      → Pending dps h₀ (dp ∷ rest) h
      → Replaced deployed ns dp (changed_by change dp) h h'
      → Pending dps h₀ rest h'
  Pending-step dps h₀ dp rest h h' p r = record {
    have_names = p.have_names.1;
    current = Current-Replaced dp (changed_by change dp) rest h h' p.have_names.0 r p.current.1;
    total = λ ns' name.
        Replaced-IsStep dp rest h h' p.have_names.0 p.current.0.0 r ns' name ∙ p.total ns' name;
  }

  -- The loop over deployments as they stand changes each of them.
  pub for_each-Changes :
      (body : Text → Deployment → Prog Event (Unit {0}) (Unit {0}))
      → Changes deployed change Ready body
      → (dps : List Deployment) (h : History) → HaveNames dps
      → All (λ dp. (deployed h ns dp.name ≡ some dp) × Ready dp) dps
      → Completes (for_each (body ns) dps) h (λ _ h'.
        (ns' name : Text) → deployed h' ns' name ≡ done_later dps ns' name (deployed h ns' name))
  for_each-Changes body changes dps h names current =
      weaken-Completes
        (for_each_rest-Completes (body ns) (Pending dps h) dps h
          (record { have_names = names; current = current; total = λ ns' name. refl })
          (λ dp rest h' p.
            weaken-Completes (changes ns dp h' p.current.0.0 p.current.0.1)
              (λ _ h'' g r. Pending-step dps h dp rest h' h'' p r)))
        (λ _ h' g p ns' name.
          sym (done_later-nil ns' name (deployed h' ns' name)) ∙ p.total ns' name)
