-- ===== src/Generated/Factory/Once.antt =====
-- Each informer of a factory is made once and run once.
use kubernetes_cluster_monit.Generated.Factory.{
  TypeMap, find_type, put_type, Factory, is_started, start_factory, informer_for,
}
use kubernetes_cluster_monit.Prelude.{
  ◌≡◌, refl, sym, ap, ◌∙◌, inl, inr, Bool, true, false, Option, none, some, List, [], ◌∷◌, arith,
  if◌then◌else◌, Bool-cases, Option-cases, All, All-map,
}
use kubernetes_cluster_monit.Prelude.Int.{ℤ}
use kubernetes_cluster_monit.Prelude.Text.{Text, text_eq, text_eq_iff, text_eq_refl}

-- No two entries for one type.
abbrev pub AreTypes : {V : Type 0} → TypeMap V → Type 0
AreTypes [] = Unit
AreTypes ((t, v) ∷ m) = (find_type t m ≡ none) × AreTypes m

-- What is done to a factory.
pub data Request (Client Informer : Type 0) : Type 0 where
  informer_asked : Text → (Client → ℤ → Informer) → Request Client Informer
  start_asked : Request Client Informer

module _ {Client Tweak Informer : Type 0} where
  abbrev pub serve_request :
      Request Client Informer → Factory Client Tweak Informer → Factory Client Tweak Informer
  serve_request (informer_asked t new_func) f = (informer_for t new_func f).1
  serve_request start_asked f = start_factory f

  abbrev pub serve_all :
      List (Request Client Informer) → Factory Client Tweak Informer → Factory Client Tweak Informer
  serve_all [] f = f
  serve_all (r ∷ rs) f = serve_all rs (serve_request r f)

abbrev pub has : {A : Type 0} → Option A → Bool
has none = false
has (some a) = true

-- There is one informer for each type. What runs is an informer of the factory, once for each type, and
-- the types that run are those that are marked.
pub record IsOnce {Client Tweak Informer : Type 0} (f : Factory Client Tweak Informer)
    : Type 0 where
  pub made_once : AreTypes f.informers
  pub run_once : AreTypes f.runs
  pub running :
      (t : Text) (i : Informer) → find_type t f.runs ≡ some i → find_type t f.informers ≡ some i
  pub marked : (t : Text) → is_started t f.started_informers ≡ has (find_type t f.runs)

pub find_type-put_type :
    {V : Type 0} (t u : Text) (v : V) (m : TypeMap V)
    → find_type u (put_type t v m) ≡ (if text_eq t u then some v else find_type u m)
find_type-put_type t u v [] = refl
find_type-put_type t u v ((s, w) ∷ m) =
    ground (arith, text_eq_iff s t, text_eq_iff s u, text_eq_iff t u, find_type-put_type t u v m)

pub put_type-AreTypes :
    {V : Type 0} (t : Text) (v : V) (m : TypeMap V) → AreTypes m → AreTypes (put_type t v m)
put_type-AreTypes t v [] a = (refl, tt)
put_type-AreTypes t v ((u, w) ∷ m) (n, a) = elim (Bool-cases (text_eq u t)) [
  | inl e ↦ rw e (ap (λ x. find_type x m) (sym ((text_eq_iff u t).0 e)) ∙ n, a)
  | inr e ↦ rw e (find_type-put_type t u v m ∙ other e ∙ n, put_type-AreTypes t v m a)
]
  where
    other : text_eq u t ≡ false → (if text_eq t u then some v else find_type u m) ≡ find_type u m
    other e = ground (arith, text_eq_iff t u, text_eq_iff u t)

-- The entries of a map without repetition are found.
pub Mem-find_type :
    {V : Type 0} (m : TypeMap V) → AreTypes m → All (λ e. find_type e.0 m ≡ some e.1) m
Mem-find_type [] a = tt
Mem-find_type {V = W} ((t, v) ∷ m) (n, a) =
    (rw (text_eq_refl t) refl, All-map _ _ m later (Mem-find_type m a))
  where
    later : (e : Text × W) → find_type e.0 m ≡ some e.1 → find_type e.0 ((t, v) ∷ m) ≡ some e.1
    later (u, w) e = elim (Bool-cases (text_eq t u)) [
      | inl s ↦
          let c : none ≡ some w = sym n ∙ ap (λ x. find_type x m) ((text_eq_iff t u).0 s) ∙ e in cc
      | inr s ↦ rw s e
    ]

module _ {Client Tweak Informer : Type 0} where
  pub informer_for-IsOnce :
      (t : Text) (new_func : Client → ℤ → Informer) (f : Factory Client Tweak Informer)
      → IsOnce f
      → IsOnce (informer_for t new_func f).1
  unfolding informer_for
  informer_for-IsOnce t new_func f o = elim (Option-cases (find_type t f.informers)) [
    | inr (i, e) ↦ rw (e, informer_for) o
    | inl e ↦
        rw (e, informer_for)
          (record {
            made_once = put_type-AreTypes t _ f.informers o.made_once;
            run_once = o.run_once;
            running =
                λ u i r. find_type-put_type t u _ f.informers ∙ kept _ u i e (o.running u i r);
            marked = o.marked;
          })
  ]
    where
      kept :
          (i' : Informer) (u : Text) (i : Informer)
          → find_type t f.informers ≡ none
          → find_type u f.informers ≡ some i
          → (if text_eq t u then some i' else find_type u f.informers) ≡ some i
      kept i' u i n e = elim (Bool-cases (text_eq t u)) [
        | inl s ↦
            let c : none ≡ some i =
              sym n ∙ ap (λ x. find_type x f.informers) ((text_eq_iff t u).0 s) ∙ e in
            cc
        | inr s ↦ rw s e
      ]
