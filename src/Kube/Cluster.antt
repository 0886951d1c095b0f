-- ===== src/Kube/Cluster.antt =====
-- An API server that keeps the deployments of a cluster, while the controller alone writes them: the
-- state after a history of calls, and the laws by which the answers show it and the patches change it.
use kubernetes_cluster_monit.Kube.{
  Deployment, Event, patched_deployment, updated_deployment, History, Kube,
}
use kubernetes_cluster_monit.Prelude.{
  ◌≡◌, Bool, true, false, ◌&&◌, Option, none, some, List, [], ◌∷◌, Memᴰ, if◌then◌else◌, any,
}
use kubernetes_cluster_monit.Prelude.Dict.{Dict}
use kubernetes_cluster_monit.Prelude.Program.{Reply}
use kubernetes_cluster_monit.Prelude.Text.{Text, text_eq}

abbrev pub named : Text → Deployment → Bool
named name dp = text_eq dp.name name

-- No two of the deployments have the same name.
abbrev pub HaveNames : List Deployment → Type 0
HaveNames [] = Unit
HaveNames (dp ∷ dps) = (any (named dp.name) dps ≡ false) × HaveNames dps

-- The calls that write a deployment.
abbrev pub writes : Event → Bool
writes (patched_deployment ns name patch reply) = true
writes (updated_deployment ns dp reply) = true
writes _ = false

abbrev pub patch_between : Kube → Deployment → Deployment → Text
patch_between k old new =
    (k.marshal_patch (k.create_patch (k.marshal old).value (k.marshal new).value).value).value

abbrev pub Deployed : Type 0
Deployed = History → (ns name : Text) → Option Deployment

-- A listing shows, once each, the deployments whose labels the selector takes. The patch between a
-- deployment and its copy with other annotations, sent for that deployment as it stands and
-- not refused, makes it the copy.
pub record IsCluster (k : Kube) (deployed : Deployed) (selects : Text → Dict → Bool) : Type 0 where
  pub shows_deployed :
      (h : History) (ns sel : Text) (dp : Deployment)
      → Memᴰ dp (k.deployments h ns sel).value
      → (deployed h ns dp.name ≡ some dp) × (selects sel dp.labels ≡ true)
  pub shows_all :
      (h : History) (ns sel name : Text) (dp : Deployment)
      → deployed h ns name ≡ some dp
      → selects sel dp.labels ≡ true
      → Memᴰ dp (k.deployments h ns sel).value
  pub shows_once : (h : History) (ns sel : Text) → HaveNames (k.deployments h ns sel).value
  pub has_name :
      (h : History) (ns name : Text) (dp : Deployment)
      → deployed h ns name ≡ some dp
      → dp.name ≡ name
  pub keeps :
      (h : History) (e : Event) (ns name : Text)
      → writes e ≡ false
      → deployed (e ∷ h) ns name ≡ deployed h ns name
  pub applies :
      (h : History) (ns : Text) (dp : Deployment) (m : Dict) (reply : Reply Deployment)
      (ns' name : Text)
      → reply.error ≡ none
      → deployed h ns dp.name ≡ some dp
      → deployed
          (patched_deployment ns dp.name
              (patch_between k dp (record dp { annotations = some m }))
              reply
            ∷ h)
          ns'
          name
        ≡ (if text_eq ns ns' && named name dp
            then some (record dp { annotations = some m })
            else deployed h ns' name)

-- What a change of the annotations makes of a deployment: `none` leaves it alone.
abbrev pub changed_by : (Option Dict → Option Dict) → Deployment → Deployment
changed_by change dp = elim (change dp.annotations) [
  | none ↦ dp
  | some m ↦ record dp { annotations = some m }
]

-- The same for those that a selector takes.
abbrev pub changed_if :
    (Text → Dict → Bool) → (Option Dict → Option Dict) → Text → Deployment → Deployment
changed_if selects change sel dp = if selects sel dp.labels then changed_by change dp else dp
