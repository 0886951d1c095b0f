-- ===== src/Controller/Handler/Effect/Whole.antt =====
-- What the whole of a handler makes of the cluster.
use mathlib.Core.Option
use kubernetes_cluster_monit.Controller.Handler.{visit_namespace}
use kubernetes_cluster_monit.Controller.Handler.Covered.{IsObliging}
use kubernetes_cluster_monit.Controller.Handler.Effect.Listed.{Changes}
use kubernetes_cluster_monit.Controller.Handler.Effect.Visits.{
  AreReady, visited, visit_namespace-visited,
}
use kubernetes_cluster_monit.Kube.{Deployment, Event, History, Kube}
use kubernetes_cluster_monit.Kube.Cluster.{Deployed, IsCluster, changed_by, changed_if}
use kubernetes_cluster_monit.Prelude.{
  ◌≡◌, refl, sym, ap, ◌∙◌, ◌⊎◌, inl, inr, Bool, true, false, Option, none, some, List, [], ◌∷◌,
  arith, if◌then◌else◌, Bool-cases, Option-cases, any,
}
use kubernetes_cluster_monit.Prelude.Dict.{Dict}
use kubernetes_cluster_monit.Prelude.Program.{
  Prog, for_each, Completes, weaken-Completes, for_each_rest-Completes,
}
use kubernetes_cluster_monit.Prelude.Text.{Text, text_eq, text_eq_iff, text_eq_refl}

-- No namespace is named twice.
abbrev pub AreDistinct : List Text → Type 0
AreDistinct [] = Unit
AreDistinct (ns ∷ nss) = (any (λ n. text_eq n ns) nss ≡ false) × AreDistinct nss

-- A changed deployment is left alone.
abbrev pub IsFinal : (Option Dict → Option Dict) → Type 0
IsFinal change = (a : Option Dict) (m : Dict) → change a ≡ some m → change (some m) ≡ none

pub changed_by-none :
    (change : Option Dict → Option Dict) (dp : Deployment)
    → change dp.annotations ≡ none
    → changed_by change dp ≡ dp
changed_by-none change dp n = rw (n, changed_by) refl

pub changed_by-some :
    (change : Option Dict → Option Dict) (dp : Deployment) (m : Dict)
    → change dp.annotations ≡ some m
    → changed_by change dp ≡ record dp { annotations = some m }
changed_by-some change dp m e = rw (e, changed_by) refl

changed_by-twice :
    (change : Option Dict → Option Dict) (dp : Deployment)
    → IsFinal change
    → changed_by change (changed_by change dp) ≡ changed_by change dp
changed_by-twice change dp final = elim (Option-cases (change dp.annotations)) [
  | inl n ↦ ap (changed_by change) (changed_by-none change dp n)
  | inr (m, e) ↦
      ap (changed_by change) (changed_by-some change dp m e)
      ∙ changed_by-none change (record dp { annotations = some m }) (final dp.annotations m e)
      ∙ sym (changed_by-some change dp m e)
]

pub changed_by-labels :
    (change : Option Dict → Option Dict) (dp : Deployment)
    → (changed_by change dp).labels ≡ dp.labels
changed_by-labels change dp = elim (Option-cases (change dp.annotations)) [
  | inl n ↦ ap (λ (d : Deployment). d.labels) (changed_by-none change dp n)
  | inr (m, e) ↦ ap (λ (d : Deployment). d.labels) (changed_by-some change dp m e)
]

changed_if-twice :
    (selects : Text → Dict → Bool) (change : Option Dict → Option Dict) (sel : Text)
    (dp : Deployment)
    → IsFinal change
    → changed_if selects change sel (changed_if selects change sel dp)
      ≡ changed_if selects change sel dp
changed_if-twice selects change sel dp final = elim (Bool-cases (selects sel dp.labels)) [
  | inl s ↦ rw s (rw (changed_by-labels change dp, s) (changed_by-twice change dp final))
  | inr s ↦ rw s (rw s refl)
]

-- The deployment of a name in `ns` after the visits of some namespaces.
abbrev pub visited_all :
    (Text → Dict → Bool)
    → (Option Dict → Option Dict)
    → Text
    → List Text
    → (ns : Text) → Option Deployment
    → Option Deployment
visited_all selects change sel nss ns o =
    if any (λ n. text_eq n ns) nss then Option.map (changed_if selects change sel) o else o

module _ {k : Kube} (good : IsObliging k) {deployed : Deployed} {selects : Text → Dict → Bool}
    (cluster : IsCluster k deployed selects) {change : Option Dict → Option Dict}
    (final : IsFinal change) {Ready : Deployment → Type 0}
    (body : Text → Deployment → Prog Event (Unit {0}) (Unit {0}))
    (changes : Changes deployed change Ready body) (sel : Text) where
  visited_all-cons :
      (n : Text) (nss : List Text) (ns : Text) (o : Option Deployment)
      → visited_all selects change sel nss ns (visited good cluster change Ready sel n ns o)
        ≡ visited_all selects change sel (n ∷ nss) ns o
  visited_all-cons n nss ns none = ground arith
  visited_all-cons n nss ns (some dp) = elim (Bool-cases (text_eq n ns)) [
    | inl s ↦ elim (Bool-cases (any (λ n. text_eq n ns) nss)) [
      | inl t ↦ rw (s, t) (ap some (changed_if-twice selects change sel dp final))
      | inr f ↦ rw (s, f) refl
    ]
    | inr f ↦ rw f refl
  ]

  record Pending (nss : List Text) (h₀ : History) (rest : List Text) (h : History) : Type 0 where
    ready :
        (ns : Text)
        → any (λ n. text_eq n ns) rest ≡ true
        → AreReady good cluster change Ready sel ns h
    once : AreDistinct rest ⊎ ((dp : Deployment) → Ready dp)
    total :
        (ns name : Text)
        → visited_all selects change sel rest ns (deployed h ns name)
          ≡ visited_all selects change sel nss ns (deployed h₀ ns name)

  Pending-once :
      (n : Text) (rest : List Text)
      → AreDistinct (n ∷ rest) ⊎ ((dp : Deployment) → Ready dp)
      → AreDistinct rest ⊎ ((dp : Deployment) → Ready dp)
  Pending-once n rest (inl d) = inl d.1
  Pending-once n rest (inr r) = inr r

  -- The visit of one namespace leaves the others ready.
  Pending-ready :
      (n : Text) (rest : List Text) (h h' : History)
      → AreDistinct (n ∷ rest) ⊎ ((dp : Deployment) → Ready dp)
      → ((ns name : Text)
          → deployed h' ns name ≡ visited good cluster change Ready sel n ns (deployed h ns name))
      → ((ns : Text)
          → any (λ x. text_eq x ns) (n ∷ rest) ≡ true
          → AreReady good cluster change Ready sel ns h)
      → (ns : Text) → any (λ x. text_eq x ns) rest ≡ true
      → AreReady good cluster change Ready sel ns h'
  Pending-ready n rest h h' (inr r) after ready ns m name dp e s = r dp
  Pending-ready n rest h h' (inl d) after ready ns m name dp e s =
      elim (Bool-cases (text_eq n ns)) [
        | inl t ↦
            let c : true ≡ false =
              sym m ∙ ap (λ y. any (λ x. text_eq x y) rest) (sym ((text_eq_iff n ns).0 t)) ∙ d.0 in
            cc
        | inr f ↦ ready ns (rw (f, m) refl) name dp (sym (after ns name ∙ rw f refl) ∙ e) s
      ]

  pub visits-Completes :
      (nss : List Text) (h : History)
      → AreDistinct nss ⊎ ((dp : Deployment) → Ready dp)
      → ((ns : Text)
          → any (λ n. text_eq n ns) nss ≡ true
          → AreReady good cluster change Ready sel ns h)
      → Completes (for_each (visit_namespace k body sel) nss) h (λ _ h'.
        (ns name : Text)
        → deployed h' ns name ≡ visited_all selects change sel nss ns (deployed h ns name))
  visits-Completes nss h once ready =
      weaken-Completes
        (for_each_rest-Completes (visit_namespace k body sel) (Pending nss h) nss h
          (record { ready = ready; once = once; total = λ ns name. refl })
          (λ n rest h' p.
            weaken-Completes
              (visit_namespace-visited good cluster change Ready body changes sel n h'
                (p.ready n (rw (text_eq_refl n) refl)))
              (λ _ h'' g all. record {
                ready = Pending-ready n rest h' h'' p.once all p.ready;
                once = Pending-once n rest p.once;
                total = λ ns name.
                    ap (visited_all selects change sel rest ns) (all ns name)
                    ∙ visited_all-cons n rest ns (deployed h' ns name)
                    ∙ p.total ns name;
              })))
        (λ _ h' g p. p.total)
