-- ===== src/Sidecar/Start/Settles.antt =====
-- When the sidecar stops waiting.
use kubernetes_cluster_monit.Keys.{action_key}
use kubernetes_cluster_monit.Kube.{Pod, got_pod, History, Kube, get_pod}
use kubernetes_cluster_monit.Prelude.{
  ℕ, zero, suc, ◌+◌, ◌≤◌, ◌<◌, ◌≡◌, refl, sym, ap, subst, ◌⊎◌, inl, inr, true, false, none, some,
  List, [], ◌∷◌, Memᴰ, arith, Bool-cases, length,
}
use kubernetes_cluster_monit.Prelude.Dict.{Dict, get}
use kubernetes_cluster_monit.Prelude.Program.{
  Reply, Extends, Mem-Extends, Extends-length, Completes, pure-Completes, call-Completes,
  bind-Completes, check-Completes,
}
use kubernetes_cluster_monit.Prelude.Text.{Text, text_eq}
use kubernetes_cluster_monit.Sidecar.Environment.Origin.{FromPolicy, kept, FromPolicy-IsStable}
use kubernetes_cluster_monit.Sidecar.Environment.Total.{set_environment-Completes}
use kubernetes_cluster_monit.Sidecar.Health.{pod_infos}
use kubernetes_cluster_monit.Sidecar.Start.{
  Start, stopped, ready, namespace_of, is_running, wait_for_ip, ensure_environment, gather, settle,
  start,
}

-- From the `n`-th call on the server reports the pod as running, with an address; the libraries read
-- every selector.
pub record IsSettled (k : Kube) (ns hostname : Text) (n : ℕ) : Type 0 where
  pub runs : (h : History) → n ≤ length h → is_running (k.pod h ns hostname).value ≡ true
  pub has_ip : (h : History) → n ≤ length h → text_eq (k.pod h ns hostname).value.pod_ip [] ≡ false
  pub selects : (s : Text) → (t : Text) × ((k.as_selector s).value ≡ some t)

-- The addresses are those of the pod's containers at an address that is not empty, as the server
-- reported the pod; the environment is the old one, or has the policy of a deployment of the pod as it was
-- reported.
pub record IsStarted (k : Kube) (ns hostname : Text) (env : Dict) (outcome : Start) (h : History)
    : Type 0 where
  pub reply : Reply Pod
  pub seen : Memᴰ (got_pod ns hostname reply) h
  pub ip : text_eq reply.value.pod_ip [] ≡ false
  pub env' : Dict
  pub outcome_is :
      outcome ≡ ready (pod_infos reply.value.pod_ip reply.value.name reply.value.containers) env'
  pub earlier : Reply Pod
  pub seen_earlier : Memᴰ (got_pod ns hostname earlier) h
  pub from : FromPolicy k earlier.value env env' h

module _ {k : Kube} {ns hostname : Text} {n : ℕ} (settled : IsSettled k ns hostname n) where
  -- The pod that the loop has in hand was reported.
  abbrev Reported : Pod → History → Type 0
  Reported pod h = (reply : Reply Pod) × Memᴰ (got_pod ns hostname reply) h × (reply.value ≡ pod)

  -- Either the pod has an address, or the fuel lasts until the server has settled.
  abbrev HasIpSoon : ℕ → Pod → History → Type 0
  HasIpSoon fuel pod h =
      (text_eq pod.pod_ip [] ≡ false) ⊎ ((m : ℕ) × (m < fuel) × (n ≤ length h + m))

  answer-HasIpSoon :
      (fuel m : ℕ) (h : History)
      → m ≤ fuel
      → n ≤ length h + m
      → HasIpSoon fuel (k.pod h ns hostname).value (got_pod ns hostname (k.pod h ns hostname) ∷ h)
  answer-HasIpSoon fuel zero h l e = inl (settled.has_ip h (omega arith))
  answer-HasIpSoon fuel (suc m) h l e = inr (m, omega arith, omega arith)

  -- A call of `get_pod`, with its answer.
  ask :
      (h : History)
      → Completes {R = Start} (get_pod k ns hostname) h (λ reply h'.
        (◌≡◌ {A = Reply Pod × History}
          (k.pod h ns hostname, got_pod ns hostname (k.pod h ns hostname) ∷ h)
          (reply, h'))
        × Memᴰ (got_pod ns hostname reply) h')
  ask h = call-Completes _ _ h (refl, Memᴰ.head refl)

  wait_for_ip-Completes :
      (fuel : ℕ) (pod : Pod) (h : History)
      → Reported pod h
      → HasIpSoon fuel pod h
      → Completes
          (wait_for_ip k ns hostname fuel pod)
          h
          (λ pod' h'. Reported pod' h' × (text_eq pod'.pod_ip [] ≡ false))
  unfolding wait_for_ip
  wait_for_ip-Completes zero pod h r (inl e) = rw e (pure-Completes pod h (r, e))
  wait_for_ip-Completes zero pod h r (inr (m, l, e)) = absurd (omega arith)
  wait_for_ip-Completes (suc fuel) pod h r soon = elim (Bool-cases (text_eq pod.pod_ip [])) [
    | inr e ↦ rw e (pure-Completes pod h (r, e))
    | inl e ↦ rw e (
        let (m, l, enough) = late soon e in
        bind-Completes (ask h) λ reply h' g (answer, seen).
          wait_for_ip-Completes fuel reply.value h' (reply, seen, refl)
            (subst (λ (x : Reply Pod × History). HasIpSoon fuel x.0.value x.1) answer
              (answer-HasIpSoon fuel m h (omega arith) enough)))
  ]
    where
      late :
          HasIpSoon (suc fuel) pod h
          → text_eq pod.pod_ip [] ≡ true
          → (m : ℕ) × (m < suc fuel) × (n ≤ length h + m)
      late (inl e') e = absurd (cc)
      late (inr s) e = s

  HasIpSoon-Extends :
      (fuel : ℕ) (pod : Pod) (h h' : History)
      → Extends h h'
      → HasIpSoon fuel pod h
      → HasIpSoon fuel pod h'
  HasIpSoon-Extends fuel pod h h' g (inl e) = inl e
  HasIpSoon-Extends fuel pod h h' g (inr (m, l, e)) =
      inr (m, l, omega (arith, Extends-length h h' g))

  ensure_environment-Completes :
      (pod : Pod) (env : Dict) (h : History)
      → Completes (ensure_environment k ns hostname pod env) h (FromPolicy k pod env)
  unfolding ensure_environment
  ensure_environment-Completes pod env h = elim (Bool-cases (text_eq (get action_key env) [])) [
    | inl e ↦ rw e (set_environment-Completes k settled.selects pod env h)
    | inr e ↦ rw e (pure-Completes env h kept)
  ]

  gather-Completes :
      (fuel : ℕ) (pod : Pod) (env : Dict) (h : History)
      → Reported pod h
      → HasIpSoon fuel pod h
      → Completes (gather k ns hostname fuel pod env) h (IsStarted k ns hostname env)
  unfolding gather
  gather-Completes fuel pod env h (reply, seen, same) soon =
      bind-Completes (ensure_environment-Completes pod env h) λ env' h' g from.
        bind-Completes
          (wait_for_ip-Completes fuel pod h' (reply, Mem-Extends g seen, same)
            (HasIpSoon-Extends fuel pod h h' g soon))
          λ pod' h'' g' ((reply', seen', same'), ip). pure-Completes _ h'' (record {
            reply = reply';
            seen = seen';
            ip = subst (λ (p : Pod). text_eq p.pod_ip [] ≡ false) (sym same') ip;
            env' = env';
            outcome_is =
                ap (λ (p : Pod). ready (pod_infos p.pod_ip p.name p.containers) env') (sym same');
            earlier = reply;
            seen_earlier = Mem-Extends g' (Mem-Extends g seen);
            from =
                subst (λ (p : Pod). FromPolicy k p env env' h'') (sym same)
                  (FromPolicy-IsStable k pod env env' h' h'' g' from);
          })

  settle-Completes :
      (fuel m : ℕ) (env : Dict) (h : History)
      → m < fuel
      → n ≤ length h + m
      → Completes (settle k ns hostname fuel env) h (IsStarted k ns hostname env)
  unfolding settle
  settle-Completes zero m env h l e = absurd (omega arith)
  settle-Completes (suc fuel) m env h l e = bind-Completes (ask h) λ reply h' g (answer, seen).
      elim (Bool-cases (is_running reply.value)) [
        | inl run ↦ rw run (
            gather-Completes fuel reply.value env h' (reply, seen, refl)
              (subst (λ (x : Reply Pod × History). HasIpSoon fuel x.0.value x.1) answer
                (answer-HasIpSoon fuel m h (omega arith) e)))
        | inr idle ↦ rw idle (
            bind-Completes (ask h') λ again h'' g' a.
              let (m', less, enough) = later reply h' m answer idle e in
              settle-Completes fuel m' env h'' (omega arith)
                (omega (arith, Extends-length h' h'' g')))
      ]
    where
      later :
          (reply : Reply Pod) (h' : History) (m : ℕ)
          → ◌≡◌ {A = Reply Pod × History}
              (k.pod h ns hostname, got_pod ns hostname (k.pod h ns hostname) ∷ h)
              (reply, h')
          → is_running reply.value ≡ false
          → n ≤ length h + m
          → (m' : ℕ) × (m' < m) × (n ≤ length h' + m')
      later reply h' zero answer idle e =
          let run = settled.runs h (omega arith) in
          let same : is_running (k.pod h ns hostname).value ≡ is_running reply.value =
            ap (λ (x : Reply Pod × History). is_running x.0.value) answer in
          absurd (cc)
      later reply h' (suc m) answer idle e =
          (m, omega arith, omega (arith, ap (λ (x : Reply Pod × History). length x.1) answer))

pub start-Completes :
    (k : Kube) (fuel n : ℕ) (hostname : Text) (env : Dict) (h : History)
    → (k.pods h [] []).error ≡ none
    → IsSettled k (namespace_of hostname (k.pods h [] []).value) hostname n
    → n < fuel
    → Completes
        (start k fuel hostname env)
        h
        (IsStarted k (namespace_of hostname (k.pods h [] []).value) hostname env)
unfolding start
start-Completes k fuel n hostname env h e settled l =
    bind-Completes (call-Completes {Q = λ r h'. (k.pods h [] []) ≡ r} _ _ h refl) λ reply h' g same.
      check-Completes reply stopped _ h' (subst (λ (r : Reply (List Pod)). r.error ≡ none) same e) (
        subst
          (λ (r : Reply (List Pod)).
            Completes (settle k (namespace_of hostname r.value) hostname fuel env) h'
              (IsStarted k (namespace_of hostname (k.pods h [] []).value) hostname env))
          same (settle-Completes settled fuel n env h' l (omega arith)))
