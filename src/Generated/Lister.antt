-- ===== src/Generated/Lister.antt =====
-- The lister of `listers/myproject/v1alpha1/receiver.go`. The indexer of client-go is a parameter, and so
-- are its functions that list what a selector takes.
pub mod Keyed
use kubernetes_cluster_monit.Prelude.{Bool, Option, none, some, List, [], ◌∷◌, ◌++◌, if◌then◌else◌}
use kubernetes_cluster_monit.Prelude.Program.{Reply}
use kubernetes_cluster_monit.Prelude.Text.{Text, codes}
use kubernetes_cluster_monit.Receiver.{Receiver}

-- `GetByKey`
pub record KeyReply : Type 0 where
  pub object : Receiver
  pub is_there : Bool
  pub key_error : Option Text

-- `ListAll` and `ListAllByNamespace` hand the objects to a function one by one; an error ends them.
pub record Indexer : Type 0 where
  pub by_key : Text → KeyReply
  pub visit_selected : (selector : Text) → Reply (List Receiver)
  pub visit_in_namespace : (ns selector : Text) → Reply (List Receiver)

-- `func(m interface{}) { ret = append(ret, m.(*v1alpha1.Receiver)) }`
unfoldable pub append_each : List Receiver → List Receiver → List Receiver
append_each ret [] = ret
append_each ret (m ∷ ms) = append_each (ret ++ m ∷ []) ms

-- `errors.NewNotFound(v1alpha1.Resource("receiver"), name)`
abbrev pub not_found : Text → Text
not_found name = codes "receiver.sampleproject.io \"" ++ (name ++ codes "\" not found")

-- `List` of `receiverLister` and of `receiverNamespaceLister`
unfoldable pub list_receivers : Indexer → (selector : Text) → Reply (List Receiver)
unfolding append_each
list_receivers idx selector =
    let visited = idx.visit_selected selector in
    record { value = append_each [] visited.value; error = visited.error }

unfoldable pub list_in_namespace : Indexer → (ns selector : Text) → Reply (List Receiver)
unfolding append_each
list_in_namespace idx ns selector =
    let visited = idx.visit_in_namespace ns selector in
    record { value = append_each [] visited.value; error = visited.error }

-- `Get` of `receiverNamespaceLister`
unfoldable pub get_receiver : Indexer → (ns name : Text) → Reply (Option Receiver)
get_receiver idx ns name =
    let reply = idx.by_key (ns ++ (b'/' ∷ name)) in
    elim reply.key_error [
      | some err ↦ record { value = none; error = some err }
      | none ↦
          if reply.is_there
          then record { value = some reply.object; error = none }
          else record { value = none; error = some (not_found name) }
    ]
