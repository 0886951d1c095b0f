-- ===== src/Tests/Cluster.antt =====
-- A server that keeps one deployment in the default namespace and carries out the patches it is sent. A
-- patch is the new annotations, each byte of a key or a value behind a mark.
use mathlib.Core.Option
use kubernetes_cluster_monit.Controller.Handler.Covered.{IsObliging}
use kubernetes_cluster_monit.Kube.{
  Deployment, Event, listed_deployments, listed_pods, got_pod, got_deployment, patched_deployment,
  updated_deployment, deleted_pod, History, Kube,
}
use kubernetes_cluster_monit.Kube.Cluster.{HaveNames, writes, Deployed, IsCluster}
use kubernetes_cluster_monit.Prelude.{
  ℕ, ◌≡◌, refl, sym, ap, ◌∙◌, subst, inl, inr, Bool, true, false, ◌&&◌, Option, none, some, List,
  [], ◌∷◌, ◌++◌, append-nil, Memᴰ, arith, ◌==◌, if◌then◌else◌, Bool-cases, all, any,
}
use kubernetes_cluster_monit.Prelude.Dict.{Dict, entries}
use kubernetes_cluster_monit.Prelude.Program.{Reply}
use kubernetes_cluster_monit.Prelude.Text.{Text, codes, text_eq, text_eq_iff, split}
use kubernetes_cluster_monit.Tests.Fixtures.{web, deployment_with, reply_of, server}

abbrev marked : ℕ → Text → Text → Text
marked mark [] rest = rest
marked mark (c ∷ s) rest = mark ∷ c ∷ marked mark s rest

abbrev encode : Dict → Text
encode [] = []
encode ((key, value) ∷ m) = marked 1 key (marked 2 value (0 ∷ 0 ∷ encode m))

abbrev push : ℕ → ℕ → Dict → Dict
push mark c [] = []
push mark c ((key, value) ∷ m) = if mark == 1 then (c ∷ key, value) ∷ m else (key, c ∷ value) ∷ m

abbrev decode : Text → Dict
decode (mark ∷ c ∷ rest) = if mark == 0 then ([], []) ∷ decode rest else push mark c (decode rest)
decode _ = []

decode-key :
    (key key' value : Text) (rest : Text) (m : Dict)
    → decode rest ≡ (key', value) ∷ m
    → decode (marked 1 key rest) ≡ (key ++ key', value) ∷ m
decode-key [] key' value rest m e = e
decode-key (c ∷ key) key' value rest m e = ap (push 1 c) (decode-key key key' value rest m e)

decode-value :
    (value value' : Text) (rest : Text) (m : Dict)
    → decode rest ≡ ([], value') ∷ m
    → decode (marked 2 value rest) ≡ ([], value ++ value') ∷ m
decode-value [] value' rest m e = e
decode-value (c ∷ value) value' rest m e = ap (push 2 c) (decode-value value value' rest m e)

decode-encode : (m : Dict) → decode (encode m) ≡ m
decode-encode [] = refl
decode-encode ((key, value) ∷ m) =
    decode-key key [] (value ++ []) (marked 2 value (0 ∷ 0 ∷ encode m)) (decode (encode m))
      (decode-value value [] (0 ∷ 0 ∷ encode m) (decode (encode m)) refl)
    ∙ rw (append-nil key, append-nil value, decode-encode m) refl

abbrev with : Text → Deployment → Deployment
with patch dp = record dp { annotations = some (decode patch) }

abbrev pub shop_labels : Dict
shop_labels = (codes "app", web) ∷ (codes "tier", codes "front") ∷ []

abbrev labelled : Option Dict → Deployment
labelled a = record (deployment_with a) { labels = shop_labels }

abbrev first_deployed : Option Dict → (ns name : Text) → Option Deployment
first_deployed a ns name =
    if text_eq ns (codes "default") && text_eq web name then some (labelled a) else none

-- The state after the calls.
abbrev pub state : Option Dict → Deployed
state a [] ns' name' = first_deployed a ns' name'
state a (patched_deployment ns name patch reply ∷ h) ns' name' =
    let before = state a h ns' name' in
    if text_eq ns ns' && text_eq name name' then Option.map (with patch) before else before
state a (e ∷ h) ns' name' = state a h ns' name'

abbrev pub has_label : Dict → Text → Bool
has_label labels requirement = any (λ l. text_eq requirement (l.0 ++ b'=' ∷ l.1)) labels

-- A selector is a list of labels, all of which are asked for.
abbrev pub takes : Text → Dict → Bool
takes sel labels = all (has_label labels) (split (b',' ∷ []) sel)

abbrev shown : Text → Option Deployment → List Deployment
shown sel none = []
shown sel (some dp) = if takes sel dp.labels then dp ∷ [] else []

abbrev pub keeper : Option Dict → Kube
keeper a = record (server a) {
  deployments = λ h ns sel. reply_of (shown sel (state a h ns web));
  marshal = λ dp. reply_of (encode (entries dp.annotations));
}

pub keeper-IsObliging : (a : Option Dict) → IsObliging (keeper a)
keeper-IsObliging a = record {
  lists = λ h ns sel. refl;
  patches = λ h ns name p. refl;
  deletes = λ h ns name. refl;
  selects = λ s. (s, refl);
  marshals = λ d. refl;
  shows = λ d. refl;
  compares = λ x y. refl;
  encodes = λ p. refl;
}

-- The one deployment keeps its name.
abbrev IsWeb : Text → Option Deployment → Type 0
IsWeb name none = Unit
IsWeb name (some dp) = (dp.name ≡ web) × (name ≡ web)

IsWeb-with :
    (patch name : Text) (b : Bool) (o : Option Deployment)
    → IsWeb name o
    → IsWeb name (if b then Option.map (with patch) o else o)
IsWeb-with patch name true none w = tt
IsWeb-with patch name true (some dp) w = w
IsWeb-with patch name false o w = w

IsWeb-state : (a : Option Dict) (h : History) (ns name : Text) → IsWeb name (state a h ns name)
IsWeb-state a [] ns name = elim (Bool-cases (text_eq ns (codes "default") && text_eq web name)) [
  | inl t ↦ rw t (refl, sym ((text_eq_iff web name).0 (ground (arith, t))))
  | inr f ↦ rw f tt
]
IsWeb-state a (patched_deployment n m patch reply ∷ h) ns name =
    IsWeb-with patch name (text_eq n ns && text_eq m name) (state a h ns name)
      (IsWeb-state a h ns name)
IsWeb-state a (listed_deployments n s reply ∷ h) ns name = IsWeb-state a h ns name
IsWeb-state a (listed_pods n s reply ∷ h) ns name = IsWeb-state a h ns name
IsWeb-state a (got_pod n m reply ∷ h) ns name = IsWeb-state a h ns name
IsWeb-state a (got_deployment n m reply ∷ h) ns name = IsWeb-state a h ns name
IsWeb-state a (updated_deployment n d reply ∷ h) ns name = IsWeb-state a h ns name
IsWeb-state a (deleted_pod n m e ∷ h) ns name = IsWeb-state a h ns name

state-IsWeb :
    (a : Option Dict) (h : History) (ns name : Text) (dp : Deployment)
    → state a h ns name ≡ some dp
    → (dp.name ≡ web) × (name ≡ web)
state-IsWeb a h ns name dp e = subst (IsWeb name) e (IsWeb-state a h ns name)

shown-Mem :
    (sel : Text) (o : Option Deployment) (dp : Deployment)
    → Memᴰ dp (shown sel o)
    → (o ≡ some dp) × (takes sel dp.labels ≡ true)
shown-Mem sel none dp m = elim m [ ]
shown-Mem sel (some d) dp m = elim (Bool-cases (takes sel d.labels)) [
  | inl t ↦ only (subst (λ b. Memᴰ dp (if b then d ∷ [] else [])) t m) t
  | inr f ↦ elim (subst (λ b. Memᴰ dp (if b then d ∷ [] else [])) f m) [ ]
]
  where
    only :
        Memᴰ dp (d ∷ [])
        → takes sel d.labels ≡ true
        → (some d ≡ some dp) × (takes sel dp.labels ≡ true)
    only (Memᴰ.head e) t = (ap some (sym e), ap (λ (x : Deployment). takes sel x.labels) e ∙ t)
    only (Memᴰ.tail n) t = elim n [ ]

Mem-shown :
    (sel : Text) (o : Option Deployment) (dp : Deployment)
    → o ≡ some dp
    → takes sel dp.labels ≡ true
    → Memᴰ dp (shown sel o)
Mem-shown sel o dp e t = rw (e, shown) (rw t (Memᴰ.head refl))

shown-HaveNames : (sel : Text) (o : Option Deployment) → HaveNames (shown sel o)
shown-HaveNames sel none = tt
shown-HaveNames sel (some dp) = elim (Bool-cases (takes sel dp.labels)) [
  | inl t ↦ rw t (refl, tt)
  | inr f ↦ rw f tt
]

state-keeps :
    (a : Option Dict) (h : History) (e : Event) (ns name : Text)
    → writes e ≡ false
    → state a (e ∷ h) ns name ≡ state a h ns name
state-keeps a h e ns name w = ground arith

state-applies :
    (a : Option Dict) (h : History) (ns : Text) (dp : Deployment) (m : Dict)
    (reply : Reply Deployment) (ns' name : Text)
    → state a h ns dp.name ≡ some dp
    → state a (patched_deployment ns dp.name (encode m) reply ∷ h) ns' name ≡ (
        if text_eq ns ns' && text_eq dp.name name
        then some (record dp { annotations = some m })
        else state a h ns' name)
state-applies a h ns dp m reply ns' name e =
    elim (Bool-cases (text_eq ns ns' && text_eq dp.name name)) [
      | inl t ↦ rw t (
          ap (Option.map (with (encode m))) (
            ap (λ x. state a h x name) (sym ((text_eq_iff ns ns').0 (ground (arith, t))))
            ∙ ap (state a h ns) (sym ((text_eq_iff dp.name name).0 (ground (arith, t))))
            ∙ e)
          ∙ ap (λ x. some (record dp { annotations = some x })) (decode-encode m))
      | inr f ↦ rw f refl
    ]

pub keeper-IsCluster : (a : Option Dict) → IsCluster (keeper a) (state a) takes
keeper-IsCluster a = record {
  shows_deployed = λ h ns sel dp m.
      let (e, t) = shown-Mem sel (state a h ns web) dp m in
      (ap (state a h ns) (state-IsWeb a h ns web dp e).0 ∙ e, t);
  shows_all = λ h ns sel name dp e t.
      Mem-shown sel (state a h ns web) dp
        (ap (state a h ns) (sym (state-IsWeb a h ns name dp e).1) ∙ e) t;
  shows_once = λ h ns sel. shown-HaveNames sel (state a h ns web);
  has_name = λ h ns name dp e. let w = state-IsWeb a h ns name dp e in w.0 ∙ sym w.1;
  keeps = state-keeps a;
  applies = λ h ns dp m reply ns' name fine e. state-applies a h ns dp m reply ns' name e;
}
