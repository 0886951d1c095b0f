-- ===== src/Rollout/Monitoring/ReadBack.antt =====
-- The collector reads back what the rounds of the sidecar log.
use kubernetes_cluster_monit.Logger.Collector.Checks.{is_plain, IsTextFormat, IsReadable, info_of}
use kubernetes_cluster_monit.Logger.Collector.Checks.ReadBack.{add_lines-checks}
use kubernetes_cluster_monit.Logger.Collector.Rounds.{add_lines}
use kubernetes_cluster_monit.Logger.Entry.{LogInfo}
use kubernetes_cluster_monit.Prelude.{
  ℕ, ◌≡◌, refl, ap, ◌∙◌, true, Option, none, some, List, [], ◌∷◌, ◌++◌, map, Memᴰ, All, All-lookup,
  Mem-right,
}
use kubernetes_cluster_monit.Prelude.Dict.{Dict}
use kubernetes_cluster_monit.Prelude.Int.{ℤ}
use kubernetes_cluster_monit.Prelude.Program.{Reply}
use kubernetes_cluster_monit.Prelude.Text.{Text}
use kubernetes_cluster_monit.Rollout.Monitoring.{
  checks_of, stamped, repeated, IsPlainInfo, IsNamed, check_from-IsReadable, logged_from,
  logged_from-url, logged_from-All, stamped-IsReadable, stamped-url, stamped-IsNamed,
  url_of-IsAddressText,
}
use kubernetes_cluster_monit.Sidecar.Health.{PodInfo, url_of, make_urls}
use kubernetes_cluster_monit.Sidecar.Health.Shared.{urls_onto-concat, Names, check_from-Names}
use kubernetes_cluster_monit.Sidecar.Log.{Formatter, logged_line}
use kubernetes_cluster_monit.Sidecar.Loop.{Act, rounds_from, monitor}
use kubernetes_cluster_monit.Sidecar.Start.{ready}

module _ {f : Formatter} (format : IsTextFormat f) (status_text : ℕ → Text)
    (plain_status : (n : ℕ) → is_plain (status_text n) ≡ true) (time : ℕ → Text)
    (plain_time : (n : ℕ) → is_plain (time n) ≡ true) where
  -- The lines of the log, and what the collector makes of them.
  abbrev pub lines_of : List Act → List Text
  lines_of acts = map (λ e. logged_line f e.0 e.1) (stamped time 0 (checks_of acts))

  -- Where every request is answered, the collector reads one entry for each check out of the lines that
  -- the sidecar logs in a number of rounds: the addresses of the entries are those of the pod's
  -- ports, in their order, once for each round. All entries name the container of the last address. The
  -- names, addresses, status texts and times are plain.
  pub add_lines-monitor :
      (fetch : ℕ → ℕ → Text → Reply ℕ)
      → ((r n : ℕ) (u : Text) → (fetch r n u).error ≡ none)
      → (parse_int : Text → Option ℤ) (infos : List PodInfo) (last : PodInfo) (env : Dict)
        (rounds : ℕ)
      → All IsPlainInfo (infos ++ last ∷ [])
      → (entries : List LogInfo) × (add_lines
            (lines_of (monitor status_text fetch parse_int rounds (ready (infos ++ last ∷ []) env)))
            []
          ≡ some entries)
        × (map (λ (e : LogInfo). e.url) entries ≡ repeated rounds (map url_of (infos ++ last ∷ [])))
        × All (IsNamed last) entries
  unfolding monitor make_urls
  add_lines-monitor fetch ok parse_int infos last env rounds plain =
      let us = map url_of (infos ++ last ∷ []) in
      let ls = logged_from status_text plain_status fetch ok parse_int last us env 0 rounds in
      let last_plain =
        All-lookup IsPlainInfo last (infos ++ last ∷ []) plain
          (Mem-right infos (last ∷ []) (Memᴰ.head refl)) in
      let readable =
        logged_from-All status_text plain_status fetch ok parse_int last us env
          (λ l. (t : Text) → is_plain t ≡ true → IsReadable t l)
          (λ n.
            check_from-IsReadable status_text plain_status (fetch n) 0 last us last_plain
              (url_of-IsAddressText (infos ++ last ∷ []) plain))
          0 rounds in
      let named =
        logged_from-All status_text plain_status fetch ok parse_int last us env (Names last)
          (λ n. check_from-Names status_text (fetch n) 0 last us) 0 rounds in
      (
        map (λ e. info_of e.0 e.1) (stamped time 0 ls),
        ap
              (λ us'.
                add_lines (lines_of (rounds_from status_text fetch parse_int 0 rounds us' env)) [])
              (urls_onto-concat _ infos last)
            ∙ add_lines-checks format (stamped time 0 ls) []
                (stamped-IsReadable time plain_time 0 ls readable),
        stamped-url time 0 ls
            ∙ logged_from-url status_text plain_status fetch ok parse_int last us env 0 rounds,
        stamped-IsNamed time last 0 ls named,
      )
