-- ===== src/Tests/Generated.antt =====
-- The theorems on the generated client.
use kubernetes_cluster_monit.Generated.Factory.{find_type, Factory, new_factory, start_factory}
use kubernetes_cluster_monit.Generated.Factory.Once.{
  Request, informer_asked, start_asked, serve_all, IsOnce,
}
use kubernetes_cluster_monit.Generated.Factory.Started.{serve_all-new_factory}
use kubernetes_cluster_monit.Generated.Lister.{Indexer}
use kubernetes_cluster_monit.Generated.Lister.Keyed.{key_of, IsKeyed}
use kubernetes_cluster_monit.Generated.Requests.{ListOptions}
use kubernetes_cluster_monit.Prelude.{
  ◌≡◌, refl, sym, ap, ◌∙◌, false, none, some, List, [], ◌∷◌, All,
}
use kubernetes_cluster_monit.Prelude.Int.{pos}
use kubernetes_cluster_monit.Prelude.Text.{Text, codes, text_eq, text_eq_iff, text_eq_refl, has_no}
use kubernetes_cluster_monit.Receiver.{Receiver}
use kubernetes_cluster_monit.Tests.Fixtures.{reply_of, web_receiver}

abbrev minute_list : ListOptions
minute_list = record {
  timeout_seconds = some (pos 60);
  watch = false;
  selection = codes "app=web";
  resource_version = [];
  other = [];
}

-- Receivers are asked for twice, with a start before and after the second time.
abbrev four_requests : List (Request (Unit {0}) Text)
four_requests =
    informer_asked (codes "*v1alpha1.Receiver") (λ c r. codes "first")
    ∷ start_asked
    ∷ informer_asked (codes "*v1alpha1.Receiver") (λ c r. codes "second")
    ∷ start_asked
    ∷ []

abbrev asked_factory : Factory (Unit {0}) (Unit {0}) Text
asked_factory = serve_all four_requests (new_factory tt (pos 0))

serve_all-new_factory_example :
    IsOnce asked_factory
    × All (λ e. find_type e.0 (start_factory asked_factory).runs ≡ some e.1) asked_factory.informers
serve_all-new_factory_example = serve_all-new_factory four_requests tt (pos 0)

-- A cache with one custom resource.
abbrev web_indexer : Indexer
web_indexer = record {
  by_key = λ key. record {
    object = web_receiver;
    is_there = text_eq key (key_of web_receiver);
    key_error = none;
  };
  visit_selected = λ s. reply_of (web_receiver ∷ []);
  visit_in_namespace = λ ns s. reply_of (web_receiver ∷ []);
}

web_indexer-IsKeyed : IsKeyed web_indexer (λ r. r ≡ web_receiver)
web_indexer-IsKeyed = record {
  never_fails = λ key. refl;
  finds_cached = λ key t. (refl, sym ((text_eq_iff key (key_of web_receiver)).0 t));
  cached_found = λ r e. (
    ap (λ (x : Receiver). text_eq (key_of x) (key_of web_receiver)) e
        ∙ text_eq_refl (key_of web_receiver),
    sym e,
  );
  no_slash = λ r e. ap (λ (x : Receiver). has_no b'/' x.namespace) e;
}
