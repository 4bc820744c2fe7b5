-- ===== src/Topic/Search.antt =====
-- FindTopicByName of redpanda/utils/utils.go: the pages of a listing are asked for, one after the
-- other, until the topic is found.
use terraform_provider_redpa.Base.{
  ℕ, zero, suc, ◌≤◌, ◌≡◌, refl, ap, inl, inr, true, false, Option, none, some, List, [], ◌∷◌, ◌++◌,
  arith, if◌then◌else◌, Option-cases, length, Text, codes, same, is_empty,
}
use terraform_provider_redpa.Errors.{GoError, not_found_error, Reply, reply, refused}

module _ {T W : Type 0} (name_of : T → Text) (list_topics : Text → W → Reply (List T × Text) × W)
    (topic_name : Text) where
  -- The loop over a page.
  unfoldable pub find_in : List T → Option T
  find_in [] = none
  find_in (t ∷ ts) = if same (name_of t) topic_name then some t else find_in ts

  abbrev pub topic_not_found : GoError
  topic_not_found = not_found_error (codes "topic " ++ (topic_name ++ codes " not found"))

  -- From the page of the token on; `none` means that the fuel ran out.
  unfoldable pub find_from : ℕ → (page_token : Text) → W → Option (Reply T × W)
  unfolding find_in
  find_from zero page_token o = none
  find_from (suc fuel) page_token o =
      let answer = list_topics page_token o in
      elim answer.0 [
        | refused err ↦ some (refused err, answer.1)
        | reply page ↦ elim (find_in page.0) [
          | some t ↦ some (reply t, answer.1)
          | none ↦ elim (is_empty page.1) [
            | true ↦ some (refused topic_not_found, answer.1)
            | false ↦ find_from fuel page.1 answer.1
          ]
        ]
      ]

  unfoldable pub find_topic_by_name : ℕ → W → Option (Reply T × W)
  unfolding find_from
  find_topic_by_name fuel o = find_from fuel [] o

  -- The search in one list.
  abbrev pub or_missing : Option T → Reply T
  or_missing (some t) = reply t
  or_missing none = refused topic_not_found

  abbrev pub find_among : List T → Reply T
  find_among ts = or_missing (find_in ts)

  abbrev pub concat : List (List T) → List T
  concat [] = []
  concat (ts ∷ pages) = ts ++ concat pages

  -- From the token on, the listing has these pages, and then no further token.
  abbrev pub Lists : Text → W → List (List T) → Type 0
  Lists token o [] = ⊥
  Lists token o (ts ∷ []) = (o' : W) × (list_topics token o ≡ (reply (ts, []), o'))
  Lists token o (ts ∷ us ∷ pages) =
      (next : Text) × (o' : W) × (list_topics token o ≡ (reply (ts, next), o'))
      × (is_empty next ≡ false)
      × Lists next o' (us ∷ pages)

  find_in-append : (ts us : List T) (t : T) → find_in ts ≡ some t → find_in (ts ++ us) ≡ some t
  unfolding find_in
  find_in-append [] us t h = cc
  find_in-append (x ∷ ts) us t h = ground (arith, find_in-append ts us t)

  find_in-append_none : (ts us : List T) → find_in ts ≡ none → find_in (ts ++ us) ≡ find_in us
  unfolding find_in
  find_in-append_none [] us h = refl
  find_in-append_none (x ∷ ts) us h = ground (arith, find_in-append_none ts us)

  find_from-Lists :
      (pages : List (List T)) (fuel : ℕ) (token : Text) (o : W)
      → Lists token o pages
      → length pages ≤ fuel
      → (s : W) × (find_from fuel token o ≡ some (find_among (concat pages), s))
  unfolding find_from
  find_from-Lists [] fuel token o h k = absurd h
  find_from-Lists (ts ∷ pages) zero token o h k = absurd (omega arith)
  find_from-Lists (ts ∷ []) (suc fuel) token o (o', e) k =
      let answer : (list_topics token o).0 ≡ reply (ts, []) = ap (λ r. r.0) e in
      elim (Option-cases (find_in ts)) [
        | inr (t, found) ↦ (
          (list_topics token o).1,
          rw (find_from, answer, found, find_in-append ts [] t found) refl,
        )
        | inl missed ↦ (
          (list_topics token o).1,
          rw (find_from, answer, missed, find_in-append_none ts [] missed) refl,
        )
      ]
  find_from-Lists (ts ∷ us ∷ pages) (suc fuel) token o (next, o', e, more, h) k =
      let answer : (list_topics token o).0 ≡ reply (ts, next) = ap (λ r. r.0) e in
      let after : (list_topics token o).1 ≡ o' = ap (λ r. r.1) e in
      elim (Option-cases (find_in ts)) [
        | inr (t, found) ↦ (
          (list_topics token o).1,
          rw (find_from, answer, found, find_in-append ts (concat (us ∷ pages)) t found) refl,
        )
        | inl missed ↦
            let (s, rest) = find_from-Lists (us ∷ pages) fuel next o' h (omega arith) in
            (
              s,
              rw
                  (
                    find_from,
                    answer,
                    missed,
                    more,
                    after,
                    find_in-append_none ts (concat (us ∷ pages)) missed,
                  )
                  rest,
            )
      ]

  -- Where the listing has finitely many pages and the fuel is their number, the search over the pages
  -- gives what the search in their concatenation gives: the first topic of the name, or an error that
  -- is a NotFoundError.
  pub find_topic_by_name-find_among :
      (pages : List (List T)) (o : W)
      → Lists [] o pages
      → (s : W) × (find_topic_by_name (length pages) o ≡ some (find_among (concat pages), s))
  unfolding find_topic_by_name
  find_topic_by_name-find_among pages o h =
      find_from-Lists pages (length pages) [] o h (omega arith)
