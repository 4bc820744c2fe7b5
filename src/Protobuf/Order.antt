-- ===== src/Protobuf/Order.antt =====
-- sort.Strings, which redpanda/models/schema/protobuf_canonicalize.go uses: byte order, and sorting by
-- insertion.
use mathlib.Core.List.{Perm, foldr}
use mathlib.Core.List.Perm
use terraform_provider_redpa.Base.{
  ◌≡◌, refl, sym, ap, ◌∙◌, Bool, true, false, List, [], ◌∷◌, ◌++◌, arith, ltb, if◌then◌else◌, Text,
}

-- `s <= t`.
unfoldable pub text_leq : Text → Text → Bool
text_leq [] t = true
text_leq (c ∷ s) [] = false
text_leq (c ∷ s) (d ∷ t) =
    let rest = text_leq s t in if ltb c d then true else if ltb d c then false else rest

unfoldable pub insert_text : Text → List Text → List Text
insert_text x [] = x ∷ []
insert_text x (y ∷ ys) =
    let rest = insert_text x ys in if text_leq x y then x ∷ y ∷ ys else y ∷ rest

unfoldable pub sort_strings : List Text → List Text
sort_strings xs = foldr insert_text [] xs

text_leq_total : (s t : Text) → text_leq s t ≡ false → text_leq t s ≡ true
unfolding text_leq
text_leq_total [] t h = cc
text_leq_total (c ∷ s) [] h = refl
text_leq_total (c ∷ s) (d ∷ t) h = ground (arith, text_leq_total s t)

text_leq_antisym : (s t : Text) → text_leq s t ≡ true → text_leq t s ≡ true → s ≡ t
unfolding text_leq
text_leq_antisym [] [] h k = refl
text_leq_antisym [] (d ∷ t) h k = cc
text_leq_antisym (c ∷ s) [] h k = cc
text_leq_antisym (c ∷ s) (d ∷ t) h k = ground (arith, text_leq_antisym s t)

text_leq_trans : (s t u : Text) → text_leq s t ≡ true → text_leq t u ≡ true → text_leq s u ≡ true
unfolding text_leq
text_leq_trans [] t u h k = refl
text_leq_trans (c ∷ s) [] u h k = cc
text_leq_trans (c ∷ s) (d ∷ t) [] h k = cc
text_leq_trans (c ∷ s) (d ∷ t) (e ∷ u) h k = ground (arith, text_leq_trans s t u)

insert_text_comm :
    (x y : Text) (l : List Text) → insert_text x (insert_text y l) ≡ insert_text y (insert_text x l)
unfolding insert_text
insert_text_comm x y [] = ground (arith, text_leq_total x y, text_leq_antisym x y)
insert_text_comm x y (z ∷ l) = ground (
  arith,
  text_leq_total x y,
  text_leq_antisym x y,
  text_leq_total x z,
  text_leq_total y z,
  text_leq_trans x y z,
  text_leq_trans y x z,
  text_leq_trans x z y,
  text_leq_trans y z x,
  insert_text_comm x y l,
)

-- The texts of one list, put into a list.
abbrev pub insert_all : List Text → List Text → List Text
insert_all xs ys = foldr insert_text ys xs

pub sort_strings-append :
    (xs ys : List Text) → sort_strings (xs ++ ys) ≡ insert_all xs (sort_strings ys)
unfolding sort_strings
sort_strings-append [] ys = refl
sort_strings-append (x ∷ xs) ys = ap (insert_text x) (sort_strings-append xs ys)

pub insert_all_comm :
    (xs ys l : List Text) → insert_all xs (insert_all ys l) ≡ insert_all ys (insert_all xs l)
insert_all_comm [] ys l = refl
insert_all_comm (x ∷ xs) ys l =
    ap (insert_text x) (insert_all_comm xs ys l) ∙ sym (passed ys (insert_all xs l))
  where
    passed : (ys l : List Text) → insert_all ys (insert_text x l) ≡ insert_text x (insert_all ys l)
    passed [] l = refl
    passed (y ∷ ys) l = ap (insert_text y) (passed ys l) ∙ insert_text_comm y x (insert_all ys l)

List-Text-set : IsSet (List Text)
List-Text-set = hlevel

pub sort_strings-Perm : {xs ys : List Text} → Perm xs ys → sort_strings xs ≡ sort_strings ys
unfolding sort_strings
sort_strings-Perm p = Perm.foldr-eq List-Text-set insert_text insert_text_comm p []
