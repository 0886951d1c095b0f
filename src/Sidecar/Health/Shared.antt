-- ===== src/Sidecar/Health/Shared.antt =====
-- What the shared loop variable does to the log of the sidecar.
use kubernetes_cluster_monit.Prelude.{
  ℕ, suc, ◌≡◌, refl, sym, ap, ◌∙◌, subst, inl, inr, some, List, [], ◌∷◌, ◌++◌, map, append_assoc,
  Option-cases, All,
}
use kubernetes_cluster_monit.Prelude.Program.{Reply}
use kubernetes_cluster_monit.Prelude.Text.{Text}
use kubernetes_cluster_monit.Sidecar.Health.{
  PodInfo, LogStruct, url_of, Urls, urls_onto, make_urls, add_log_data, check_from, check_health,
}

pub urls_onto-concat :
    (us : Urls) (infos : List PodInfo) (last : PodInfo)
    → urls_onto us (infos ++ last ∷ [])
      ≡ record { texts = us.texts ++ map url_of (infos ++ last ∷ []); variable = some last }
unfolding urls_onto
urls_onto-concat us [] last = refl
urls_onto-concat us (i ∷ infos) last =
    urls_onto-concat _ infos last
    ∙ ap (λ t. record { texts = t; variable = some last })
        (append_assoc us.texts (url_of i ∷ []) (map url_of (infos ++ last ∷ [])))

-- All logged lines name one container and one pod.
abbrev pub Names : PodInfo → LogStruct → Type 0
Names i l = (l.container_name ≡ i.container_name) × (l.pod_name ≡ i.pod_name)

pub check_from-Names :
    (status_text : ℕ → Text) (fetch : ℕ → Text → Reply ℕ) (n : ℕ) (i : PodInfo) (us : List Text)
    → All (Names i) (check_from status_text fetch n i us)
unfolding check_from
check_from-Names status_text fetch n i [] = tt
check_from-Names status_text fetch n i (u ∷ us) = elim (Option-cases (fetch n u).error) [
  | inl e ↦
      rw (e, check_from)
        (
          (unfold add_log_data in refl, unfold add_log_data in refl),
          check_from-Names status_text fetch (suc n) i us,
        )
  | inr (err, e) ↦ rw (e, check_from) (check_from-Names status_text fetch (suc n) i us)
]

-- Every check of a round is logged with the container of the last address, whichever container
-- answered.
pub check_health-Names :
    (status_text : ℕ → Text) (fetch : ℕ → Text → Reply ℕ) (infos : List PodInfo) (last : PodInfo)
    → All (Names last) (check_health status_text fetch (make_urls (infos ++ last ∷ [])))
unfolding check_health make_urls
check_health-Names status_text fetch infos last =
    subst (λ (us : Urls). All (Names last) (check_health status_text fetch us))
      (sym (urls_onto-concat _ infos last)) (check_from-Names status_text fetch 0 last _)
