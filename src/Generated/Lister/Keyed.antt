-- ===== src/Generated/Lister/Keyed.antt =====
-- What the lister finds in a cache whose keys are namespace and name.
use kubernetes_cluster_monit.Generated.Lister.{Indexer, get_receiver}
use kubernetes_cluster_monit.Prelude.{
  ◌≡◌, refl, sym, ap, ◌∙◌, subst, ◌↔◌, inl, inr, Bool, true, false, none, some, [], ◌∷◌, ◌++◌,
  arith, if◌then◌else◌, Bool-cases,
}
use kubernetes_cluster_monit.Prelude.Text.{Text, has_no}
use kubernetes_cluster_monit.Receiver.{Receiver}

-- `cache.MetaNamespaceKeyFunc` of an object in a namespace.
abbrev pub key_of : Receiver → Text
key_of r = r.namespace ++ (b'/' ∷ r.name)

-- What the documentation of the indexer says, for custom resources in namespaces, whose names have no
-- slash: without an error, a key finds the cached object that has it.
pub record IsKeyed (idx : Indexer) (IsCached : Receiver → Type 0) : Type 0 where
  pub never_fails : (key : Text) → (idx.by_key key).key_error ≡ none
  pub finds_cached :
      (key : Text)
      → (idx.by_key key).is_there ≡ true
      → IsCached (idx.by_key key).object × (key_of (idx.by_key key).object ≡ key)
  pub cached_found :
      (r : Receiver)
      → IsCached r
      → ((idx.by_key (key_of r)).is_there ≡ true) × ((idx.by_key (key_of r)).object ≡ r)
  pub no_slash : (r : Receiver) → IsCached r → has_no b'/' r.namespace ≡ true

key-injective :
    (a b x y : Text)
    → has_no b'/' a ≡ true
    → has_no b'/' b ≡ true
    → a ++ (b'/' ∷ x) ≡ b ++ (b'/' ∷ y)
    → (a ≡ b) × (x ≡ y)
key-injective [] [] x y p q e = (refl, cc)
key-injective [] (d ∷ b) x y p q e = absurd (ground arith)
key-injective (c ∷ a) [] x y p q e = absurd (ground arith)
key-injective (c ∷ a) (d ∷ b) x y p q e =
    let same : c ≡ d = cc in
    let rest : a ++ (b'/' ∷ x) ≡ b ++ (b'/' ∷ y) = cc in
    let (f, g) = key-injective a b x y (ground arith) (ground arith) rest in
    (ap (λ n. n ∷ a) same ∙ ap (◌∷◌ d) f, g)

get_receiver-reply :
    (idx : Indexer) (ns name : Text)
    → (idx.by_key (ns ++ (b'/' ∷ name))).key_error ≡ none
    → (get_receiver idx ns name).value ≡ (
        if (idx.by_key (ns ++ (b'/' ∷ name))).is_there
        then some (idx.by_key (ns ++ (b'/' ∷ name))).object
        else none)
unfolding get_receiver
get_receiver-reply idx ns name e =
    rw (e, get_receiver)
      (elim (Bool-cases (idx.by_key (ns ++ (b'/' ∷ name))).is_there) [
        | inl t ↦ rw t refl
        | inr f ↦ rw f refl
      ])

if_some : (b : Bool) (x r : Receiver) → (if b then some x else none) ≡ some r → (b ≡ true) × (x ≡ r)
if_some true x r e = (refl, cc)
if_some false x r e = absurd (cc)

-- The lister finds a custom resource by namespace and name exactly if it is in the cache: what it returns
-- is cached and has that namespace and that name, and everything that is cached is found by its own. No
-- namespace has a slash.
pub get_receiver_iff :
    (idx : Indexer) {IsCached : Receiver → Type 0} (laws : IsKeyed idx IsCached) (ns name : Text)
    (r : Receiver)
    → has_no b'/' ns ≡ true
    → ((get_receiver idx ns name).value ≡ some r)
      ↔ (IsCached r × (r.namespace ≡ ns) × (r.name ≡ name))
get_receiver_iff idx {IsCached} laws ns name r s = (to, from)
  where
    reply : (get_receiver idx ns name).value ≡ (
        if (idx.by_key (ns ++ (b'/' ∷ name))).is_there
        then some (idx.by_key (ns ++ (b'/' ∷ name))).object
        else none)
    reply = get_receiver-reply idx ns name (laws.never_fails _)

    to :
        (get_receiver idx ns name).value ≡ some r
        → IsCached r × (r.namespace ≡ ns) × (r.name ≡ name)
    to e =
        let (t, same) = if_some _ _ r (sym reply ∙ e) in
        let (c, k) = laws.finds_cached _ t in
        let (f, g) = key-injective _ ns _ name (laws.no_slash _ c) s k in
        (
          subst IsCached same c,
          ap (λ (x : Receiver). x.namespace) (sym same) ∙ f,
          ap (λ (x : Receiver). x.name) (sym same) ∙ g,
        )

    from :
        IsCached r × (r.namespace ≡ ns) × (r.name ≡ name)
        → (get_receiver idx ns name).value ≡ some r
    from (c, e, f) =
        let key : key_of r ≡ ns ++ (b'/' ∷ name) =
          ap (λ x. x ++ (b'/' ∷ r.name)) e ∙ ap (λ x. ns ++ (b'/' ∷ x)) f in
        let (t, o) = laws.cached_found r c in
        reply
        ∙ subst
            (λ x. (if (idx.by_key x).is_there then some (idx.by_key x).object else none) ≡ some r)
            key (rw (t, o) refl)
