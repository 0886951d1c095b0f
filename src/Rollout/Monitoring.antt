-- ===== src/Rollout/Monitoring.antt =====
-- From the addresses of a pod to the log file of the collector: the loop of `sidecar/sidecar.go`, the
-- lines it logs, and what `logger/collector/collector.go` reads out of them.
pub mod ReadBack
use mathlib.Core.List.{map-append}
use kubernetes_cluster_monit.Logger.Collector.Checks.{is_plain, IsReadable, info_of}
use kubernetes_cluster_monit.Logger.Entry.{LogInfo}
use kubernetes_cluster_monit.Prelude.{
  ℕ, zero, suc, ◌≡◌, refl, sym, ap, ◌∙◌, subst, inl, inr, true, false, Option, none, some, List, [],
  ◌∷◌, ◌++◌, map, Option-cases, all, All, All-append,
}
use kubernetes_cluster_monit.Prelude.Dict.{Dict}
use kubernetes_cluster_monit.Prelude.Int.{ℤ}
use kubernetes_cluster_monit.Prelude.Program.{Reply}
use kubernetes_cluster_monit.Prelude.Text.{Text, text_eq}
use kubernetes_cluster_monit.Sidecar.Health.{
  PodInfo, LogStruct, url_of, add_log_data, check_from, check_health,
}
use kubernetes_cluster_monit.Sidecar.Health.Shared.{Names}
use kubernetes_cluster_monit.Sidecar.Loop.{Act, checked, paused, rounds_from}

-- The checks that the acts of the loop log, in their order.
abbrev pub checks_of : List Act → List LogStruct
checks_of [] = []
checks_of (checked l ∷ acts) = l ∷ checks_of acts
checks_of (paused d ∷ acts) = checks_of acts

-- Each with the time of its line.
abbrev pub stamped : (time : ℕ → Text) → ℕ → List LogStruct → List (Text × LogStruct)
stamped time n [] = []
stamped time n (l ∷ ls) = (time n, l) ∷ stamped time (suc n) ls

abbrev pub repeated {ℓ} : {A : Type ℓ} → ℕ → List A → List A
repeated zero xs = []
repeated (suc n) xs = xs ++ repeated n xs

-- The container's names and its address are plain.
pub record IsPlainInfo (i : PodInfo) : Type 0 where
  pub container_plain : is_plain i.container_name ≡ true
  pub pod_plain : is_plain i.pod_name ≡ true
  pub address_plain : is_plain (url_of i) ≡ true

-- The entry names the container and the pod of an address.
abbrev pub IsNamed : PodInfo → LogInfo → Type 0
IsNamed i e = (e.container ≡ i.container_name) × (e.pod ≡ i.pod_name)

checks_of-append :
    (ls : List LogStruct) (acts : List Act)
    → checks_of (map checked ls ++ acts) ≡ ls ++ checks_of acts
checks_of-append [] acts = refl
checks_of-append (l ∷ ls) acts = ap (◌∷◌ l) (checks_of-append ls acts)

module _ (status_text : ℕ → Text) (plain_status : (n : ℕ) → is_plain (status_text n) ≡ true) where
  check_from-url :
      (fetch : ℕ → Text → Reply ℕ) (n : ℕ) (last : PodInfo) (us : List Text)
      → ((n : ℕ) (u : Text) → (fetch n u).error ≡ none)
      → map (λ (l : LogStruct). l.url) (check_from status_text fetch n last us) ≡ us
  unfolding check_from add_log_data
  check_from-url fetch n last [] ok = refl
  check_from-url fetch n last (u ∷ us) ok =
      rw (ok n u, check_from) (ap (◌∷◌ u) (check_from-url fetch (suc n) last us ok))

  abbrev IsAddressText : Text → Type 0
  IsAddressText u = (is_plain u ≡ true) × (text_eq u [] ≡ false)

  pub check_from-IsReadable :
      (fetch : ℕ → Text → Reply ℕ) (n : ℕ) (last : PodInfo) (us : List Text)
      → IsPlainInfo last
      → All IsAddressText us
      → All
          (λ l. (time : Text) → is_plain time ≡ true → IsReadable time l)
          (check_from status_text fetch n last us)
  unfolding check_from
  check_from-IsReadable fetch n last [] plain us_plain = tt
  check_from-IsReadable fetch n last (u ∷ us) plain ((p, q), ps) =
      let rest = check_from-IsReadable fetch (suc n) last us plain ps in
      elim (Option-cases (fetch n u).error) [
        | inl e ↦ rw (e, check_from) (readable, rest)
        | inr (err, e) ↦ rw (e, check_from) rest
      ]
    where
      readable :
          (time : Text)
          → is_plain time ≡ true
          → IsReadable time (add_log_data status_text last u (fetch n u).value)
      readable time t =
          unfold add_log_data in
          record {
            time_is = t;
            container_is = plain.container_plain;
            pod_is = plain.pod_plain;
            request_is = refl;
            status_is = plain_status (fetch n u).value;
            url_is = p;
            has_url = q;
          }

  module _ (fetch : ℕ → ℕ → Text → Reply ℕ) (ok : (r n : ℕ) (u : Text) → (fetch r n u).error ≡ none)
      (parse_int : Text → Option ℤ) (last : PodInfo) (us : List Text) (env : Dict) where
    abbrev pub logged_from : (n rounds : ℕ) → List LogStruct
    logged_from n rounds = checks_of (
        rounds_from status_text fetch parse_int n rounds
          (record { texts = us; variable = some last }) env)

    pub logged_from-url :
        (n rounds : ℕ) → map (λ (l : LogStruct). l.url) (logged_from n rounds) ≡ repeated rounds us
    unfolding rounds_from check_health
    logged_from-url n zero = refl
    logged_from-url n (suc rounds) =
        ap (map (λ (l : LogStruct). l.url))
          (checks_of-append (check_from status_text (fetch n) 0 last us) _)
        ∙ map-append (λ (l : LogStruct). l.url) (check_from status_text (fetch n) 0 last us)
            (logged_from (suc n) rounds)
        ∙ rw (check_from-url (fetch n) 0 last us (ok n))
            (ap (◌++◌ us) (logged_from-url (suc n) rounds))

    pub logged_from-All :
        (P : LogStruct → Type 0)
        → ((n : ℕ) → All P (check_from status_text (fetch n) 0 last us))
        → (n rounds : ℕ) → All P (logged_from n rounds)
    unfolding rounds_from check_health
    logged_from-All P each n zero = tt
    logged_from-All P each n (suc rounds) =
        subst (All P) (sym (checks_of-append (check_from status_text (fetch n) 0 last us) _)) (
          All-append P (check_from status_text (fetch n) 0 last us) (logged_from (suc n) rounds)
            (each n) (logged_from-All P each (suc n) rounds))

pub stamped-IsReadable :
    (time : ℕ → Text)
    → ((n : ℕ) → is_plain (time n) ≡ true)
    → (n : ℕ) (ls : List LogStruct) → All (λ l. (t : Text) → is_plain t ≡ true → IsReadable t l) ls
    → All (λ e. IsReadable e.0 e.1) (stamped time n ls)
stamped-IsReadable time plain n [] all = tt
stamped-IsReadable time plain n (l ∷ ls) all =
    (all.0 (time n) (plain n), stamped-IsReadable time plain (suc n) ls all.1)

pub stamped-url :
    (time : ℕ → Text) (n : ℕ) (ls : List LogStruct)
    → map (λ (e : LogInfo). e.url) (map (λ e. info_of e.0 e.1) (stamped time n ls))
      ≡ map (λ (l : LogStruct). l.url) ls
stamped-url time n [] = refl
stamped-url time n (l ∷ ls) = ap (◌∷◌ l.url) (stamped-url time (suc n) ls)

pub stamped-IsNamed :
    (time : ℕ → Text) (i : PodInfo) (n : ℕ) (ls : List LogStruct)
    → All (Names i) ls
    → All (IsNamed i) (map (λ e. info_of e.0 e.1) (stamped time n ls))
stamped-IsNamed time i n [] all = tt
stamped-IsNamed time i n (l ∷ ls) all = (all.0, stamped-IsNamed time i (suc n) ls all.1)

pub url_of-IsAddressText :
    (infos : List PodInfo)
    → All IsPlainInfo infos
    → All (λ u. (is_plain u ≡ true) × (text_eq u [] ≡ false)) (map url_of infos)
unfolding text_eq
url_of-IsAddressText [] all = tt
url_of-IsAddressText (i ∷ infos) all =
    ((all.0.address_plain, refl), url_of-IsAddressText infos all.1)
