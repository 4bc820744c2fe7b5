-- ===== src/Errors/Laws.antt =====
-- What the classification of errors guarantees, and what a text alone can do to it.
use terraform_provider_redpa.Base.{
  Text, codes, true, some, ◌++◌, contains, to_lower, ◌≡◌, arith, contains-append_middle,
  to_lower-append, [],
}
use terraform_provider_redpa.Errors.{GoError, is_not_found}

-- Whatever its status says, an error counts as not found when the digits 404 stand in its text.
pub is_not_found_by_digits :
    (a b : Text) (err : GoError)
    → err.text ≡ a ++ (codes "404" ++ b)
    → is_not_found (some err) ≡ true
unfolding is_not_found to_lower
is_not_found_by_digits a b err e =
    let lowered : contains (to_lower err.text) (codes "404") ≡ true =
      rw (e, to_lower-append a, to_lower-append (codes "404"))
        (contains-append_middle (to_lower a) (codes "404") (to_lower b)) in
    ground (arith, lowered)

-- So does any error whose text ends with the words "not found".
pub is_not_found_by_phrase :
    (a : Text) (err : GoError) → err.text ≡ a ++ codes "not found" → is_not_found (some err) ≡ true
unfolding is_not_found to_lower
is_not_found_by_phrase a err e =
    let lowered : contains (to_lower err.text) (codes "not found") ≡ true =
      rw (e, to_lower-append a) (contains-append_middle (to_lower a) (codes "not found") []) in
    ground (arith, lowered)
