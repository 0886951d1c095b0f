-- ===== src/Generated/Factory/Started.antt =====
-- A factory that is started leaves all its informers running.
use kubernetes_cluster_monit.Generated.Factory.{
  TypeMap, find_type, put_type, Factory, is_started, apply_options, new_factory_with_options,
  new_factory, start_one, start_each, start_factory, informer_for,
}
use kubernetes_cluster_monit.Generated.Factory.Once.{
  Request, informer_asked, start_asked, serve_all, has, IsOnce, find_type-put_type, Mem-find_type,
  informer_for-IsOnce,
}
use kubernetes_cluster_monit.Prelude.{
  ◌≡◌, refl, sym, ap, ◌∙◌, inl, inr, Bool, true, false, Option, none, some, List, [], ◌∷◌,
  if◌then◌else◌, Bool-cases, Option-cases, All, All-map,
}
use kubernetes_cluster_monit.Prelude.Int.{ℤ}
use kubernetes_cluster_monit.Prelude.Text.{Text, text_eq, text_eq_iff, text_eq_refl}

module _ {Client Tweak Informer : Type 0} where
  -- The rest of the informers are of the factory.
  abbrev AreMade : Factory Client Tweak Informer → TypeMap Informer → Type 0
  AreMade f rest = All (λ e. find_type e.0 f.informers ≡ some e.1) rest

  -- What a step of the loop does to the goroutines.
  record IsStarted (t : Text) (i : Informer) (f f' : Factory Client Tweak Informer) : Type 0 where
    once : IsOnce f'
    same : f'.informers ≡ f.informers
    runs_now : find_type t f'.runs ≡ some i
    runs_still :
        (u : Text) (j : Informer) → find_type u f.runs ≡ some j → find_type u f'.runs ≡ some j

  marked-some :
      (t : Text) (i : Informer) (f : Factory Client Tweak Informer)
      → IsOnce f
      → find_type t f.informers ≡ some i
      → is_started t f.started_informers ≡ true
      → find_type t f.runs ≡ some i
  marked-some t i f o m s = elim (Option-cases (find_type t f.runs)) [
    | inl n ↦ let c : false ≡ true = sym (o.marked t ∙ ap has n) ∙ s in cc
    | inr (j, e) ↦ e ∙ sym (o.running t j e) ∙ m
  ]

  marked-none :
      (t : Text) (f : Factory Client Tweak Informer)
      → IsOnce f
      → is_started t f.started_informers ≡ false
      → find_type t f.runs ≡ none
  marked-none t f o s = elim (Option-cases (find_type t f.runs)) [
    | inl n ↦ n
    | inr (j, e) ↦ let c : true ≡ false = sym (o.marked t ∙ ap has e) ∙ s in cc
  ]

  start_one-IsStarted :
      (t : Text) (i : Informer) (f : Factory Client Tweak Informer)
      → IsOnce f
      → find_type t f.informers ≡ some i
      → IsStarted t i f (start_one t i f)
  unfolding start_one
  start_one-IsStarted t i f o m = elim (Bool-cases (is_started t f.started_informers)) [
    | inl s ↦ rw s (record {
      once = o;
      same = refl;
      runs_now = marked-some t i f o m s;
      runs_still = λ u j e. e;
    })
    | inr s ↦ rw s (record {
      once = record {
        made_once = o.made_once;
        run_once = (marked-none t f o s, o.run_once);
        running = runs_then s;
        marked = marked_then;
      };
      same = refl;
      runs_now = rw (text_eq_refl t) refl;
      runs_still = still s;
    })
  ]
    where
      chosen :
          {A : Type 0} (u : Text) (x y : A)
          → text_eq t u ≡ true
          → (if text_eq t u then x else y) ≡ x
      chosen u x y e = rw e refl

      passed :
          {A : Type 0} (u : Text) (x y : A)
          → text_eq t u ≡ false
          → (if text_eq t u then x else y) ≡ y
      passed u x y e = rw e refl

      runs_then :
          is_started t f.started_informers ≡ false
          → (u : Text) (j : Informer)
          → (if text_eq t u then some i else find_type u f.runs) ≡ some j
          → find_type u f.informers ≡ some j
      runs_then s u j r = elim (Bool-cases (text_eq t u)) [
        | inl e ↦
            ap (λ x. find_type x f.informers) (sym ((text_eq_iff t u).0 e))
            ∙ m
            ∙ sym (chosen u (some i) (find_type u f.runs) e)
            ∙ r
        | inr e ↦ o.running u j (sym (passed u (some i) (find_type u f.runs) e) ∙ r)
      ]

      marked_then :
          (u : Text)
          → is_started u (put_type t true f.started_informers)
            ≡ has (if text_eq t u then some i else find_type u f.runs)
      marked_then u =
          ap (λ (b : Option Bool). elim b [ none ↦ false | some x ↦ x ])
            (find_type-put_type t u true f.started_informers)
          ∙ elim (Bool-cases (text_eq t u)) [ inl e ↦ rw e refl | inr e ↦ rw e (o.marked u) ]

      still :
          is_started t f.started_informers ≡ false
          → (u : Text) (j : Informer) → find_type u f.runs ≡ some j
          → (if text_eq t u then some i else find_type u f.runs) ≡ some j
      still s u j e = elim (Bool-cases (text_eq t u)) [
        | inl b ↦
            let c : none ≡ some j =
              sym (marked-none t f o s)
              ∙ ap (λ x. find_type x f.runs) ((text_eq_iff t u).0 b)
              ∙ e in
            cc
        | inr b ↦ passed u (some i) (find_type u f.runs) b ∙ e
      ]

  -- What the loop does.
  record AreStarted (rest : TypeMap Informer) (f f' : Factory Client Tweak Informer) : Type 0 where
    all_once : IsOnce f'
    all_same : f'.informers ≡ f.informers
    all_run : All (λ e. find_type e.0 f'.runs ≡ some e.1) rest
    all_still :
        (u : Text) (j : Informer) → find_type u f.runs ≡ some j → find_type u f'.runs ≡ some j

  start_each-AreStarted :
      (rest : TypeMap Informer) (f : Factory Client Tweak Informer)
      → IsOnce f
      → AreMade f rest
      → AreStarted rest f (start_each rest f)
  unfolding start_each
  start_each-AreStarted [] f o m = record {
    all_once = o;
    all_same = refl;
    all_run = tt;
    all_still = λ u j e. e;
  }
  start_each-AreStarted ((t, i) ∷ rest) f o (m, ms) =
      let first = start_one-IsStarted t i f o m in
      let later =
        start_each-AreStarted rest (start_one t i f) first.once
          (All-map _ _ rest (λ e n. ap (find_type e.0) first.same ∙ n) ms) in
      record {
        all_once = later.all_once;
        all_same = later.all_same ∙ first.same;
        all_run = (later.all_still t i first.runs_now, later.all_run);
        all_still = λ u j e. later.all_still u j (first.runs_still u j e);
      }

  start_factory-AreStarted :
      (f : Factory Client Tweak Informer) → IsOnce f → AreStarted f.informers f (start_factory f)
  unfolding start_factory
  start_factory-AreStarted f o =
      start_each-AreStarted f.informers f o (Mem-find_type f.informers o.made_once)

  serve_all-IsOnce :
      (rs : List (Request Client Informer)) (f : Factory Client Tweak Informer)
      → IsOnce f
      → IsOnce (serve_all rs f)
  serve_all-IsOnce [] f o = o
  serve_all-IsOnce (informer_asked t new_func ∷ rs) f o =
      serve_all-IsOnce rs (informer_for t new_func f).1 (informer_for-IsOnce t new_func f o)
  serve_all-IsOnce (start_asked ∷ rs) f o =
      serve_all-IsOnce rs (start_factory f) (start_factory-AreStarted f o).all_once

  -- Whatever is asked of a new factory, and in whatever order, there is one informer for each type, an
  -- informer is run at most once, and what runs is an informer of the factory; and the next `Start` leaves
  -- every informer running that was asked for.
  pub serve_all-new_factory :
      (rs : List (Request Client Informer)) (client : Client) (default_resync : ℤ)
      → IsOnce (serve_all rs (new_factory {Tweak = Tweak} client default_resync))
        × All
            (λ e.
              find_type e.0
                (start_factory
                  (serve_all rs (new_factory {Tweak = Tweak} client default_resync))).runs
              ≡ some e.1)
            (serve_all rs (new_factory {Tweak = Tweak} client default_resync)).informers
  unfolding new_factory_with_options apply_options
  serve_all-new_factory rs client default_resync =
      let o =
        serve_all-IsOnce rs (new_factory {Tweak = Tweak} client default_resync)
          (record { made_once = tt; run_once = tt; running = λ t i e. e; marked = λ t. refl }) in
      (o, (start_factory-AreStarted _ o).all_run)
