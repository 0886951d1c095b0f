-- ===== src/Controller/Selector/Joined.antt =====
-- The selector text is the list of its requirements, joined by commas.
use kubernetes_cluster_monit.Controller.Selector.{
  is_comma, labels_onto, values_onto, expressions_onto, retrieve_expression,
}
use kubernetes_cluster_monit.Prelude.{
  ◌≡◌, refl, sym, ap, ◌∙◌, false, List, [], ◌∷◌, ◌++◌, map, append-nil, append_assoc, is_empty, All,
}
use kubernetes_cluster_monit.Prelude.Dict.{Dict}
use kubernetes_cluster_monit.Prelude.Text.{
  Text, join, trim_right, trim_right-append_all, Ends, trim_right-Ends, Ends-append, Ends-last,
}
use kubernetes_cluster_monit.Receiver.{ExpressionStruct, PodSelector}

-- Each piece with a comma behind it.
abbrev trailing : List Text → Text
trailing [] = []
trailing (x ∷ xs) = x ++ (b',' ∷ trailing xs)

trailing-join :
    (x : Text) (xs : List Text) → trailing (x ∷ xs) ≡ join (b',' ∷ []) (x ∷ xs) ++ b',' ∷ []
unfolding join
trailing-join x [] = refl
trailing-join x (y ∷ ys) = rw (trailing-join y ys) (simp append_assoc)

abbrev EndsPlain : Text → Type 0
EndsPlain = Ends is_comma

join-EndsPlain :
    (x : Text) (xs : List Text) → All EndsPlain (x ∷ xs) → EndsPlain (join (b',' ∷ []) (x ∷ xs))
unfolding join
join-EndsPlain x [] h = h.0
join-EndsPlain x (y ∷ ys) h =
    Ends-append is_comma x _ (Ends-append is_comma (b',' ∷ []) _ (join-EndsPlain y ys h.1))

-- Trimming takes away the last comma only.
trim_right-trailing :
    (u x : Text) (xs : List Text)
    → All EndsPlain (x ∷ xs)
    → trim_right is_comma (u ++ trailing (x ∷ xs)) ≡ u ++ join (b',' ∷ []) (x ∷ xs)
trim_right-trailing u x xs h =
    let joined = join (b',' ∷ []) (x ∷ xs) in
    ap (λ t. trim_right is_comma (u ++ t)) (trailing-join x xs)
    ∙ ap (trim_right is_comma) (sym (append_assoc u joined (b',' ∷ [])))
    ∙ trim_right-append_all is_comma (u ++ joined) (b',' ∷ []) refl
    ∙ trim_right-Ends is_comma (u ++ joined) (Ends-append is_comma u joined (join-EndsPlain x xs h))

abbrev pub label_text : Text × Text → Text
label_text (k, v) = k ++ (b'=' ∷ v)

abbrev pub requirement_text : ExpressionStruct → Text
requirement_text e =
    e.key ++ (b' ' ∷ (e.operator ++ (b' ' ∷ b'(' ∷ (join (b',' ∷ []) e.values ++ b')' ∷ []))))

-- The value of a label does not end with a comma; it may be empty.
abbrev pub IsPlainValue : Text → Type 0
IsPlainValue v = EndsPlain (b'=' ∷ v)

-- A listed value is not empty, and does not end with a comma.
abbrev pub IsPlainExpression : ExpressionStruct → Type 0
IsPlainExpression e = All EndsPlain e.values

labels_onto-trailing :
    (acc : Text) (m : Dict) → labels_onto acc m ≡ acc ++ trailing (map label_text m)
unfolding labels_onto
labels_onto-trailing acc [] = sym (append-nil acc)
labels_onto-trailing acc ((k, v) ∷ m) = labels_onto-trailing _ m ∙ simp append_assoc

values_onto-trailing : (acc : Text) (vs : List Text) → values_onto acc vs ≡ acc ++ trailing vs
unfolding values_onto
values_onto-trailing acc [] = sym (append-nil acc)
values_onto-trailing acc (v ∷ vs) = values_onto-trailing _ vs ∙ simp append_assoc

trim_right-values :
    (u : Text) (vs : List Text)
    → EndsPlain u
    → All EndsPlain vs
    → trim_right is_comma (values_onto u vs) ≡ u ++ join (b',' ∷ []) vs
unfolding join
trim_right-values u [] e h =
    ap (trim_right is_comma) (values_onto-trailing u [] ∙ append-nil u)
    ∙ trim_right-Ends is_comma u e
    ∙ sym (append-nil u)
trim_right-values u (v ∷ vs) e h =
    ap (trim_right is_comma) (values_onto-trailing u (v ∷ vs)) ∙ trim_right-trailing u v vs h

abbrev opening : ExpressionStruct → Text
opening e = e.key ++ (b' ' ∷ (e.operator ++ b' ' ∷ b'(' ∷ []))

opening-EndsPlain : (e : ExpressionStruct) → EndsPlain (opening e)
opening-EndsPlain e = Ends-append is_comma e.key _ (
    Ends-append is_comma (b' ' ∷ []) _
      (Ends-append is_comma e.operator _ (b' ' ∷ [], b'(', refl, refl)))

expressions_onto-trailing :
    (es : List ExpressionStruct) (acc : Text)
    → All IsPlainExpression es
    → expressions_onto acc es ≡ acc ++ trailing (map requirement_text es)
unfolding expressions_onto
expressions_onto-trailing [] acc h = sym (append-nil acc)
expressions_onto-trailing (e ∷ es) acc h =
    expressions_onto-trailing es _ h.1
    ∙ ap (λ t. (t ++ b')' ∷ b',' ∷ []) ++ trailing (map requirement_text es))
        (trim_right-values (acc ++ opening e) e.values
          (Ends-append is_comma acc _ (opening-EndsPlain e)) h.0)
    ∙ simp append_assoc

labels-EndsPlain : (m : Dict) → All (λ l. IsPlainValue l.1) m → All EndsPlain (map label_text m)
labels-EndsPlain [] h = tt
labels-EndsPlain ((k, v) ∷ m) h = (Ends-append is_comma k _ h.0, labels-EndsPlain m h.1)

expressions-EndsPlain : (es : List ExpressionStruct) → All EndsPlain (map requirement_text es)
expressions-EndsPlain [] = tt
expressions-EndsPlain (e ∷ es) = (
  Ends-append is_comma e.key _ (
      Ends-append is_comma (b' ' ∷ []) _ (
        Ends-append is_comma e.operator _ (
          Ends-append is_comma (b' ' ∷ b'(' ∷ []) _
            (Ends-last is_comma (join (b',' ∷ []) e.values) b')' refl)))),
  expressions-EndsPlain es,
)

join-append :
    (x y : Text) (xs ys : List Text)
    → join (b',' ∷ []) ((x ∷ xs) ++ y ∷ ys)
      ≡ join (b',' ∷ []) (x ∷ xs) ++ (b',' ∷ join (b',' ∷ []) (y ∷ ys))
unfolding join
join-append x y [] ys = refl
join-append x y (z ∷ xs) ys = rw (join-append z y xs ys) (simp append_assoc)

-- The text of a first label is not empty: it has the equality sign.
is_empty-labels :
    (k v : Text) (xs : List Text) → is_empty (join (b',' ∷ []) (label_text (k, v) ∷ xs)) ≡ false
unfolding join
is_empty-labels [] v [] = refl
is_empty-labels [] v (x ∷ xs) = refl
is_empty-labels (c ∷ k) v [] = refl
is_empty-labels (c ∷ k) v (x ∷ xs) = refl

pub labels_text :
    (l : Text × Text) (m : Dict)
    → All (λ l. IsPlainValue l.1) (l ∷ m)
    → trim_right is_comma (labels_onto [] (l ∷ m)) ≡ join (b',' ∷ []) (map label_text (l ∷ m))
labels_text l m h =
    ap (trim_right is_comma) (labels_onto-trailing [] (l ∷ m))
    ∙ trim_right-trailing [] (label_text l) (map label_text m) (labels-EndsPlain (l ∷ m) h)

expressions_text :
    (u : Text) (e : ExpressionStruct) (es : List ExpressionStruct)
    → All IsPlainExpression (e ∷ es)
    → trim_right is_comma (expressions_onto u (e ∷ es))
      ≡ u ++ join (b',' ∷ []) (map requirement_text (e ∷ es))
expressions_text u e es h =
    ap (trim_right is_comma) (expressions_onto-trailing (e ∷ es) u h)
    ∙ trim_right-trailing u _ (map requirement_text es) (expressions-EndsPlain (e ∷ es))

retrieve-join :
    (m : Dict) (es : List ExpressionStruct)
    → All (λ l. IsPlainValue l.1) m
    → All IsPlainExpression es
    → retrieve_expression (record { expression = es; labels = m })
      ≡ join (b',' ∷ []) (map label_text m ++ map requirement_text es)
unfolding retrieve_expression
retrieve-join [] [] p q = unfold join in refl
retrieve-join [] (e ∷ es) p q = expressions_text [] e es q
retrieve-join (l ∷ m) [] p q = labels_text l m p ∙ ap (join (b',' ∷ [])) (sym (append-nil _))
retrieve-join (l ∷ m) (e ∷ es) p q = rw (labels_text l m p) (
    rw (is_empty-labels l.0 l.1 (map label_text m)) (
      rw (expressions_text (b',' ∷ []) e es q) (
        sym (
          join-append (label_text l) (requirement_text e) (map label_text m)
            (map requirement_text es)))))

-- Where no label value and no listed value ends with a comma, and no listed value is empty, the
-- selector text is exactly the labels `k=v`, then the expressions `key op (v1,v2)`, joined by single
-- commas.
pub retrieve_expression-join :
    (selector : PodSelector)
    → All (λ l. IsPlainValue l.1) selector.labels
    → All IsPlainExpression selector.expression
    → retrieve_expression selector
      ≡ join
          (b',' ∷ [])
          (map label_text selector.labels ++ map requirement_text selector.expression)
retrieve_expression-join selector = retrieve-join selector.labels selector.expression
