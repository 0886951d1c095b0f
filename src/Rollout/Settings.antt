-- ===== src/Rollout/Settings.antt =====
-- From the policy of the custom resource to the settings of the sidecar.
use kubernetes_cluster_monit.Controller.Policy.{log_frequency_text, Policy, policy, annotate}
use kubernetes_cluster_monit.Controller.Policy.Annotations.{annotate-lookup}
use kubernetes_cluster_monit.Keys.{group_label_key, action_key, log_frequency_key}
use kubernetes_cluster_monit.Kube.{Pod, Deployment, History, Kube}
use kubernetes_cluster_monit.Kube.Steady.{IsSteady, covers}
use kubernetes_cluster_monit.Prelude.{
  ℕ, ◌≤◌, ◌<◌, ◌≡◌, sym, ap, ◌∙◌, subst, inl, inr, Option, some, List, arith, ◌==◌, if◌then◌else◌,
  Bool-cases, find,
}
use kubernetes_cluster_monit.Prelude.Dict.{Dict, insert, value_or_empty, get, lookup-insert}
use kubernetes_cluster_monit.Prelude.Int.{ℤ, pos, nanoseconds}
use kubernetes_cluster_monit.Prelude.Number.{itoa_nat, itoa, int_limit}
use kubernetes_cluster_monit.Prelude.Program.{next}
use kubernetes_cluster_monit.Prelude.Text.{Text, text_eq}
use kubernetes_cluster_monit.Receiver.{ReceiverSpec}
use kubernetes_cluster_monit.Rollout.Injection.{annotated}
use kubernetes_cluster_monit.Sidecar.Environment.{set_policy, set_environment}
use kubernetes_cluster_monit.Sidecar.Environment.Steady.{given_by, set_environment-steady}
use kubernetes_cluster_monit.Sidecar.Health.{sleep_duration, sleep_duration-some}
use kubernetes_cluster_monit.Sidecar.Loop.Pauses.{second_limit, asked_pause, nanoseconds-asked}

-- What the sidecar reads of its environment.
pub record HasSettings (spec : ReceiverSpec) (parse_int : Text → Option ℤ) (env : Dict)
    : Type 0 where
  pub action : get action_key env ≡ spec.action
  pub group_label : get group_label_key env ≡ (policy spec).group_label
  pub pause :
      (n : ℕ)
      → n ≤ second_limit
      → spec.log_frequency ≡ pos n
      → nanoseconds (sleep_duration parse_int env) ≡ asked_pause (pos n)

-- The three values are set, under three different names.
get-set_policy :
    (ann env : Dict)
    → (get action_key (set_policy ann env) ≡ get action_key ann)
      × (get group_label_key (set_policy ann env) ≡ get group_label_key ann)
      × (get log_frequency_key (set_policy ann env) ≡ get log_frequency_key ann)
unfolding set_policy group_label_key action_key log_frequency_key text_eq
get-set_policy ann env =
    let act = insert action_key (get action_key ann) env in
    let label = insert group_label_key (get group_label_key ann) act in
    (
      ap value_or_empty (
          lookup-insert log_frequency_key action_key (get log_frequency_key ann) label
          ∙ lookup-insert group_label_key action_key (get group_label_key ann) act
          ∙ lookup-insert action_key action_key (get action_key ann) env),
      ap value_or_empty (
          lookup-insert log_frequency_key group_label_key (get log_frequency_key ann) label
          ∙ lookup-insert group_label_key group_label_key (get group_label_key ann) act),
      ap value_or_empty
          (lookup-insert log_frequency_key log_frequency_key (get log_frequency_key ann) label),
    )

get-annotate :
    (p : Policy) (a : Option Dict) (m : Dict)
    → annotate p a ≡ some m
    → (get action_key m ≡ p.action)
      × (get group_label_key m ≡ p.group_label)
      × (get log_frequency_key m ≡ p.log_frequency)
unfolding group_label_key action_key log_frequency_key text_eq
get-annotate p a m e = (
  ap value_or_empty (annotate-lookup p a m e action_key),
  ap value_or_empty (annotate-lookup p a m e group_label_key),
  ap value_or_empty (annotate-lookup p a m e log_frequency_key),
)

pause_lem :
    (parse_int : Text → Option ℤ)
    → ((n : ℕ) → n < int_limit → parse_int (itoa (pos n)) ≡ some (pos n))
    → (f : ℤ) (n : ℕ) → n < int_limit
    → f ≡ pos n
    → parse_int (log_frequency_text f) ≡ some (if n == 0 then pos 10 else pos n)
unfolding log_frequency_text itoa itoa_nat
pause_lem parse_int d f n l e =
    subst (λ x. parse_int (log_frequency_text x) ≡ some (if n == 0 then pos 10 else pos n)) (sym e)
      (elim (Bool-cases (n == 0)) [
        | inl z ↦ rw (z, log_frequency_text) (d 10 (omega arith))
        | inr z ↦ rw (z, log_frequency_text) (d n l)
      ])

-- Over a steady server, where the first deployment that covers the sidecar's pod got the policy of a
-- custom resource, the sidecar's environment has the action and the group label of the policy, and the
-- pause that it gives is that of the policy's number of seconds, 10 where that number is 0. The number is
-- from 0 to 9223372036, and reading what is printed of a 64-bit number gives the number.
pub annotate-set_environment :
    {R : Type 0} {k : Kube} (pod : Pod) {pods : Text → List Pod} {dps : List Deployment}
    {selector : Deployment → Text} (steady : IsSteady k pod.namespace pods dps selector)
    (parse_int : Text → Option ℤ) (spec : ReceiverSpec) (dp : Deployment) (m env : Dict)
    (h : History)
    → ((n : ℕ) → n < int_limit → parse_int (itoa (pos n)) ≡ some (pos n))
    → annotate (policy spec) dp.annotations ≡ some m
    → find (covers pods selector pod.name) dps ≡ some (annotated dp m)
    → (env' : Dict) × ((set_environment k {R = R} pod env h).0 ≡ next env')
      × HasSettings spec parse_int env'
annotate-set_environment pod steady parse_int spec dp m env h d a f =
    let set = get-set_policy m env in
    let written = get-annotate (policy spec) dp.annotations m a in
    (
      set_policy m env,
      set_environment-steady pod steady env h ∙ ap (λ o. next (given_by o env)) f,
      record {
        action = set.0 ∙ written.0;
        group_label = set.1 ∙ written.1;
        pause = λ n l e.
            ap nanoseconds (
              sleep_duration-some parse_int (set_policy m env) _ (
                ap parse_int (set.2 ∙ written.2)
                ∙ pause_lem parse_int d spec.log_frequency n (omega arith) e))
            ∙ nanoseconds-asked (pos n) l;
      },
    )
