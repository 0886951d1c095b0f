-- ===== src/Controller/Selector/Reordered.antt =====
-- A policy whose labels another run of `RetrieveExpression` visits in another order, as a `range` over a
-- Go map may.
use mathlib.Core.List.{Permᴰ}
use kubernetes_cluster_monit.Controller.Selector.{retrieve_expression}
use kubernetes_cluster_monit.Prelude.{◌≡◌, Bool}
use kubernetes_cluster_monit.Prelude.Dict.{Dict}
use kubernetes_cluster_monit.Prelude.Text.{Text}
use kubernetes_cluster_monit.Receiver.{PodSelector, Receiver}

abbrev pub with_labels : Dict → Receiver → Receiver
with_labels m r = record r {
  spec = record r.spec { label_selector = record r.spec.label_selector { labels = m } };
}

-- `m` has the policy's labels, perhaps in another order, and the API server, to which a selector is a list
-- of requirements that must all hold, takes the same for both texts.
pub record IsReordering (selects : Text → Dict → Bool) (s : PodSelector) (m : Dict) : Type 0 where
  pub permuted : Permᴰ s.labels m
  pub same_taken :
      (labels : Dict)
      → selects (retrieve_expression (record s { labels = m })) labels
        ≡ selects (retrieve_expression s) labels
