-- ===== src/Urls/ImportId.antt =====
-- Import IDs at a separator of one byte, as all resources use it.
use terraform_provider_redpa.Base.{
  ℕ, ◌≡◌, refl, sym, ◌∙◌, ◌≢◌, ◌↔◌, inl, inr, true, false, Option, none, some, [], ◌∷◌, ◌++◌, arith,
  ◌==◌, ==_iff, ==_refl, Bool-cases, All, Text, strip, cut,
}
use terraform_provider_redpa.Urls.{split_import_id}

abbrev pub HasNo : ℕ → Text → Type 0
HasNo sep s = All (λ c. c ≢ sep) s

abbrev with_head : ℕ → Option (Text × Text) → Option (Text × Text)
with_head c none = none
with_head c (some (h, t)) = some (c ∷ h, t)

cut-here : (sep c : ℕ) (s : Text) → c == sep ≡ true → cut (c ∷ s) (sep ∷ []) ≡ some ([], s)
unfolding cut strip
cut-here sep c s e = rw (e, cut, strip) refl

cut-later :
    (sep c : ℕ) (s : Text)
    → c == sep ≡ false
    → cut (c ∷ s) (sep ∷ []) ≡ with_head c (cut s (sep ∷ []))
unfolding cut strip
cut-later sep c s e = rw (e, cut, strip) refl

cut-append : (sep : ℕ) (h t : Text) → HasNo sep h → cut (h ++ sep ∷ t) (sep ∷ []) ≡ some (h, t)
cut-append sep [] t clean = cut-here sep sep t (==_refl sep)
cut-append sep (c ∷ h) t (other, clean) = elim (Bool-cases (c == sep)) [
  | inl e ↦ absurd (other ((==_iff c sep).0 e))
  | inr e ↦ cut-later sep c (h ++ sep ∷ t) e ∙ rw (cut-append sep h t clean)
]

with_head-some :
    (c : ℕ) (o : Option (Text × Text)) (h t : Text)
    → with_head c o ≡ some (h, t)
    → (rest : Text) × (o ≡ some (rest, t)) × (h ≡ c ∷ rest)
with_head-some c none h t e = cc
with_head-some c (some (rest, tail)) h t e = (rest, cc, cc)

cut-here_sound :
    (sep c : ℕ) (id h t : Text)
    → c == sep ≡ true
    → ◌≡◌ {A = Option (Text × Text)} (some ([], id)) (some (h, t))
    → (c ∷ id ≡ h ++ sep ∷ t) × HasNo sep h
cut-here_sound sep c id [] t e found =
    let same_tail : id ≡ t = cc in (rw (same_tail, (==_iff c sep).0 e) refl, tt)
cut-here_sound sep c id (d ∷ h) t e found = cc

cut_sound :
    (sep : ℕ) (id h t : Text) → cut id (sep ∷ []) ≡ some (h, t) → (id ≡ h ++ sep ∷ t) × HasNo sep h
unfolding cut strip
cut_sound sep [] h t found = cc
cut_sound sep (c ∷ id) h t found = elim (Bool-cases (c == sep)) [
  | inl e ↦ cut-here_sound sep c id h t e (sym (cut-here sep c id e) ∙ found)
  | inr e ↦
      let (rest, more, grown) =
        with_head-some c (cut id (sep ∷ [])) h t (sym (cut-later sep c id e) ∙ found) in
      let (made, clean) = cut_sound sep id rest t more in
      (rw (grown, made) refl, rw grown (λ is_sep. ground arith, clean))
]

-- An import ID splits into a head and a tail at a separator of one byte exactly if it is the head,
-- the separator and the tail, and the head does not hold the separator; the tail may.
pub split_import_id_iff :
    (sep : ℕ) (id h t : Text)
    → (split_import_id id (sep ∷ []) ≡ some (h, t)) ↔ ((id ≡ h ++ sep ∷ t) × HasNo sep h)
unfolding split_import_id
split_import_id_iff sep id h t =
    (cut_sound sep id h t, λ (made, clean). rw made (cut-append sep h t clean))
