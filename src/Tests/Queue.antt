-- ===== src/Tests/Queue.antt =====
-- A work queue that counts requeues as the documentation says.
use kubernetes_cluster_monit.Controller.Worker.{Workqueue}
use kubernetes_cluster_monit.Controller.Worker.Retries.{CountsRequeues}
use kubernetes_cluster_monit.Controller.Worker.Run.Drained.{HandsOut}
use kubernetes_cluster_monit.Prelude.{
  ℕ, suc, ◌≡◌, refl, ap, false, Option, none, some, List, [], ◌∷◌, ◌++◌, arith, if◌then◌else◌,
}
use kubernetes_cluster_monit.Prelude.Text.{Text, text_eq, text_eq_iff}

pub count : Text → List Text → ℕ
count k [] = 0
count k (j ∷ js) = if text_eq j k then suc (count k js) else count k js

pub without : Text → List Text → List Text
without k [] = []
without k (j ∷ js) = if text_eq j k then without k js else j ∷ without k js

-- The waiting keys, and one entry for each requeue.
abbrev pub Queue : Type 0
Queue = List Text × List Text

abbrev take_first : Queue → Option Text × Queue
take_first ([], counted) = (none, ([], counted))
take_first (key ∷ keys, counted) = (some key, (keys, counted))

abbrev pub counting_queue : Workqueue Queue
counting_queue = record {
  get = take_first;
  done = λ s key. s;
  add = λ s key. (s.0 ++ key ∷ [], s.1);
  add_rate_limited = λ s key. (s.0 ++ key ∷ [], key ∷ s.1);
  forget = λ s key. (s.0, without key s.1);
  num_requeues = λ s key. count key s.1;
}

take_first-keeps : (s : Queue) → (take_first s).1.1 ≡ s.1
take_first-keeps ([], counted) = refl
take_first-keeps (key ∷ keys, counted) = refl

without-clears : (k : Text) (js : List Text) → count k (without k js) ≡ 0
unfolding count without
without-clears k [] = refl
without-clears k (j ∷ js) = ground (arith, without-clears k js)

without-keeps :
    (i k : Text) (js : List Text) → text_eq i k ≡ false → count k (without i js) ≡ count k js
unfolding count without
without-keeps i k [] e = refl
without-keeps i k (j ∷ js) e =
    ground (arith, text_eq_iff i k, text_eq_iff j i, text_eq_iff j k, without-keeps i k js e)

pub count-nil : (k : Text) → count k [] ≡ 0
unfolding count
count-nil k = refl

limited-keeps : (i k : Text) (js : List Text) → text_eq i k ≡ false → count k (i ∷ js) ≡ count k js
unfolding count
limited-keeps i k js e = ground arith

pub counting_queue-CountsRequeues : CountsRequeues counting_queue
counting_queue-CountsRequeues = record {
  get_keeps = λ s key. ap (count key) (take_first-keeps s);
  done_keeps = λ s j key. refl;
  add_keeps = λ s j key. refl;
  forget_clears = λ s key. without-clears key s.1;
  forget_keeps = λ s j key e. without-keeps j key s.1 e;
  limited_keeps = λ s j key e. limited-keeps j key s.1 e;
}

abbrev pub waiting : Queue → List Text
waiting s = s.0

take_first-next :
    (s : Queue) (key : Text) (keys : List Text)
    → waiting s ≡ key ∷ keys
    → (take_first s).0 ≡ some key
take_first-next ([], counted) key keys e = absurd (cc)
take_first-next (k ∷ ks, counted) key keys e = cc

take_first-leaves :
    (s : Queue) (key : Text) (keys : List Text)
    → waiting s ≡ key ∷ keys
    → waiting (take_first s).1 ≡ keys
take_first-leaves ([], counted) key keys e = absurd (cc)
take_first-leaves (k ∷ ks, counted) key keys e = cc

pub counting_queue-HandsOut : HandsOut counting_queue waiting
counting_queue-HandsOut = record { get_next = take_first-next; turn_leaves = take_first-leaves }
