-- ===== src/Controller/Policy/Groups.antt =====
-- The group label of a policy, and how `logger/endpoint/endpoint.go` takes it apart again.
use kubernetes_cluster_monit.Prelude.{
  ℕ, false, List, [], ◌∷◌, ◌++◌, append-nil, append_assoc, All, ◌≡◌, ◌≢◌, refl, sym, ap, ◌∙◌, arith,
}
use kubernetes_cluster_monit.Prelude.Text.{
  Text, trim_right, trim_right-append_all, trim_right-Ends, Ends, Ends-append, join, split,
  starts_with, Lacks, split_from,
}
use kubernetes_cluster_monit.Controller.Policy.{groups_onto, is_dash, group_label_text}

abbrev pub dashes : Text
dashes = b'-' ∷ b'-' ∷ []

-- A label in which two dashes never meet, also with a separator behind it.
abbrev pub IsSeparable : Text → Type 0
IsSeparable x = Lacks dashes (x ++ b'-' ∷ [])

abbrev trailing : List Text → Text
trailing [] = []
trailing (x ∷ xs) = x ++ (b'-' ∷ b'-' ∷ trailing xs)

groups_onto-trailing : (xs : List Text) (acc : Text) → groups_onto acc xs ≡ acc ++ trailing xs
unfolding groups_onto
groups_onto-trailing [] acc = sym (append-nil acc)
groups_onto-trailing (x ∷ xs) acc = groups_onto-trailing xs _ ∙ simp append_assoc

trailing-join : (x : Text) (xs : List Text) → trailing (x ∷ xs) ≡ join dashes (x ∷ xs) ++ dashes
unfolding join
trailing-join x [] = refl
trailing-join x (y ∷ ys) = rw (trailing-join y ys) (simp append_assoc)

-- A separable text that is not empty does not end with a dash.
IsSeparable-Ends : (x : Text) → IsSeparable x → x ≢ [] → Ends is_dash x
unfolding starts_with
IsSeparable-Ends [] h n = absurd (n refl)
IsSeparable-Ends (c ∷ []) h n = ([], c, refl, ground arith)
IsSeparable-Ends (c ∷ d ∷ x) h n =
    Ends-append is_dash (c ∷ []) (d ∷ x) (IsSeparable-Ends (d ∷ x) h.1 (λ e. cc))

join-Ends :
    (x : Text) (xs : List Text)
    → All IsSeparable (x ∷ xs)
    → All (λ t. t ≢ []) (x ∷ xs)
    → Ends is_dash (join dashes (x ∷ xs))
unfolding join
join-Ends x [] h n = IsSeparable-Ends x h.0 n.0
join-Ends x (y ∷ ys) h n =
    Ends-append is_dash x _ (Ends-append is_dash dashes _ (join-Ends y ys h.1 n.1))

pub group_label_text-join :
    (x : Text) (xs : List Text)
    → All IsSeparable (x ∷ xs)
    → All (λ t. t ≢ []) (x ∷ xs)
    → group_label_text (x ∷ xs) ≡ join dashes (x ∷ xs)
unfolding group_label_text
group_label_text-join x xs h n =
    ap (trim_right is_dash) (groups_onto-trailing (x ∷ xs) [] ∙ trailing-join x xs)
    ∙ trim_right-append_all is_dash (join dashes (x ∷ xs)) dashes refl
    ∙ trim_right-Ends is_dash _ (join-Ends x xs h n)

-- Only the first byte behind a label decides whether the separator starts in it.
starts_with-dashes :
    (c : ℕ) (x t : Text)
    → starts_with dashes (c ∷ (x ++ b'-' ∷ t)) ≡ starts_with dashes (c ∷ (x ++ b'-' ∷ []))
unfolding starts_with
starts_with-dashes c [] t = refl
starts_with-dashes c (d ∷ x) t = refl

not_starts_with-dashes :
    (c : ℕ) (x : Text)
    → starts_with dashes (c ∷ (x ++ b'-' ∷ [])) ≡ false
    → starts_with dashes (c ∷ x) ≡ false
unfolding starts_with
not_starts_with-dashes c [] h = ground arith
not_starts_with-dashes c (d ∷ x) h = h

split_from-dashes :
    (acc x t : Text)
    → IsSeparable x
    → split_from dashes 0 acc (x ++ b'-' ∷ b'-' ∷ t) ≡ (acc ++ x) ∷ split_from dashes 0 [] t
unfolding split_from
split_from-dashes acc [] t h = rw append-nil (unfold starts_with in refl)
split_from-dashes acc (c ∷ x) t h =
    rw (starts_with-dashes c x (b'-' ∷ t) ∙ h.0, split_from)
      (split_from-dashes (acc ++ c ∷ []) x t h.1 ∙ rw append_assoc)

split_from_last : (acc x : Text) → IsSeparable x → split_from dashes 0 acc x ≡ (acc ++ x) ∷ []
unfolding split_from
split_from_last acc [] h = rw append-nil
split_from_last acc (c ∷ x) h =
    rw (not_starts_with-dashes c x h.0, split_from)
      (split_from_last (acc ++ c ∷ []) x h.1 ∙ rw append_assoc)

split-join-dashes :
    (x : Text) (xs : List Text)
    → All IsSeparable (x ∷ xs)
    → split dashes (join dashes (x ∷ xs)) ≡ x ∷ xs
unfolding split join
split-join-dashes x [] h = split_from_last [] x h.0
split-join-dashes x (y ∷ ys) h =
    split_from-dashes [] x _ h.0 ∙ ap (◌∷◌ x) (split-join-dashes y ys h.1)

-- The endpoint's split of the annotation at `--` gives back the group labels that the controller
-- wrote, where there is at least one, none is empty, and in none two dashes meet or the last byte is
-- a dash.
pub split-group_label_text :
    (x : Text) (xs : List Text)
    → All IsSeparable (x ∷ xs)
    → All (λ t. t ≢ []) (x ∷ xs)
    → split dashes (group_label_text (x ∷ xs)) ≡ x ∷ xs
split-group_label_text x xs h n =
    ap (split dashes) (group_label_text-join x xs h n) ∙ split-join-dashes x xs h
