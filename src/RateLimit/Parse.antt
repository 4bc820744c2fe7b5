-- ===== src/RateLimit/Parse.antt =====
-- What a header has to hold to be accepted.
use terraform_provider_redpa.Base.{
  ◌≡◌, refl, sym, ◌∙◌, inl, inr, true, Option, none, some, List, [], ◌∷◌, arith, if◌then◌else◌,
  Bool-cases, Option-cases, length, Text, codes, same, split, trim_space, same_iff, ℤ, atoi,
}
use terraform_provider_redpa.RateLimit.{
  RateLimit, Seen, record_value, record_part, record_parts, complete, nothing_seen,
  parse_rate_limit, duration_of, ◌>>=◌, is_three,
}

abbrev pub first_some {ℓ} : {A : Type ℓ} → Option A → Option A → Option A
first_some (some a) o = some a
first_some none o = o

-- The value that a part key=value gives to a key.
abbrev pub part_value : Text → List Text → Option ℤ
part_value key (k ∷ v ∷ []) = if same (trim_space k) key then atoi (trim_space v) else none
part_value key [] = none
part_value key (k ∷ []) = none
part_value key (k ∷ v ∷ w ∷ rest) = none

-- The value of a key in the header: that of its last part.
abbrev pub value_in : Text → List Text → Option ℤ
value_in key [] = none
value_in key (part ∷ parts) = first_some (value_in key parts) (part_value key (split part b'='))

abbrev as_duration : Option ℤ → Option ℤ
as_duration none = none
as_duration (some v) = some (duration_of v)

-- How the value of each key goes on from what was seen before.
abbrev pub Follows : Option ℤ → Option ℤ → Option ℤ → Seen → Seen → Type 0
Follows limit remaining reset seen next =
    (next.limit ≡ first_some limit seen.limit)
    × (next.remaining ≡ first_some remaining seen.remaining)
    × (next.reset ≡ first_some (as_duration reset) seen.reset)

record_value-Follows :
    (key : Text) (v : ℤ) (seen : Seen)
    → Follows
        (if same key (codes "limit") then some v else none)
        (if same key (codes "remaining") then some v else none)
        (if same key (codes "reset") then some v else none)
        seen
        (record_value key v seen)
record_value-Follows key v seen = ground (
  arith,
  same_iff key (codes "limit"),
  same_iff key (codes "remaining"),
  same_iff key (codes "reset"),
)

record_part-Follows :
    (part : List Text) (seen next : Seen)
    → record_part part seen ≡ some next
    → Follows
        (part_value (codes "limit") part)
        (part_value (codes "remaining") part)
        (part_value (codes "reset") part)
        seen
        next
record_part-Follows [] seen next h = ground arith
record_part-Follows (k ∷ []) seen next h = ground arith
record_part-Follows (k ∷ v ∷ []) seen next h = elim (Option-cases (atoi (trim_space v))) [
  | inl bad ↦ cc (rw bad at h)
  | inr (n, ok) ↦
      let now : some (record_value (trim_space k) n seen) ≡ some next = rw ok at h in
      let e : record_value (trim_space k) n seen ≡ next = cc in
      rw (ok, ← e) (record_value-Follows (trim_space k) n seen)
]
record_part-Follows (k ∷ v ∷ w ∷ rest) seen next h = ground arith

bind-eq-some {ℓ κ} :
    {A : Type ℓ} {B : Type κ} (m : Option A) (f : A → Option B) {b : B}
    → (m >>= f) ≡ some b
    → (a : A) × (m ≡ some a) × (f a ≡ some b)
bind-eq-some none f h = cc
bind-eq-some (some a) f h = (a, refl, h)

Follows-trans :
    (l l' r r' t t' : Option ℤ) (a b c : Seen)
    → Follows l r t a b
    → Follows l' r' t' b c
    → Follows (first_some l' l) (first_some r' r) (first_some t' t) a c
Follows-trans l l' r r' t t' a b c h k = ground arith

record_parts-Follows :
    (parts : List Text) (seen next : Seen)
    → record_parts parts seen ≡ some next
    → Follows
        (value_in (codes "limit") parts)
        (value_in (codes "remaining") parts)
        (value_in (codes "reset") parts)
        seen
        next
unfolding record_parts
record_parts-Follows [] seen next h = ground arith
record_parts-Follows (part ∷ parts) seen next h =
    let (mid, first, rest) =
      bind-eq-some (record_part (split part b'=') seen) (record_parts parts) h in
    Follows-trans (part_value (codes "limit") (split part b'=')) (value_in (codes "limit") parts)
      (part_value (codes "remaining") (split part b'=')) (value_in (codes "remaining") parts)
      (part_value (codes "reset") (split part b'=')) (value_in (codes "reset") parts) seen mid next
      (record_part-Follows (split part b'=') seen mid first)
      (record_parts-Follows parts mid next rest)

abbrev pub parts_of : Text → List Text
parts_of header = split header b','

complete-eq-some :
    (seen : Seen) {rl : RateLimit}
    → complete seen ≡ some rl
    → (seen.limit ≡ some rl.limit)
      × (seen.remaining ≡ some rl.remaining)
      × (seen.reset ≡ some rl.reset)
complete-eq-some seen h = ground arith

length-is_three : (parts : List Text) → is_three parts ≡ true → length parts ≡ 3
length-is_three [] h = cc
length-is_three (a ∷ []) h = cc
length-is_three (a ∷ b ∷ []) h = cc
length-is_three (a ∷ b ∷ c ∷ []) h = refl
length-is_three (a ∷ b ∷ c ∷ d ∷ rest) h = cc

as_duration-eq-some :
    (o : Option ℤ) {d : ℤ} → as_duration o ≡ some d → (v : ℤ) × (o ≡ some v) × (d ≡ duration_of v)
as_duration-eq-some none h = cc
as_duration-eq-some (some v) h = (v, refl, cc)

first_some-none {ℓ} : {A : Type ℓ} (o : Option A) → first_some o none ≡ o
first_some-none none = refl
first_some-none (some a) = refl

accepted :
    (parts : List Text) (seen : Seen) (rl : RateLimit)
    → is_three parts ≡ true
    → record_parts parts nothing_seen ≡ some seen
    → complete seen ≡ some rl
    → (length parts ≡ 3)
      × (value_in (codes "limit") parts ≡ some rl.limit)
      × (value_in (codes "remaining") parts ≡ some rl.remaining)
      × ((v : ℤ) × (value_in (codes "reset") parts ≡ some v) × (rl.reset ≡ duration_of v))
accepted parts seen rl three recorded ended =
    let (limit, remaining, reset) = record_parts-Follows parts nothing_seen seen recorded in
    let (has_limit, has_remaining, has_reset) = complete-eq-some seen ended in
    (
      length-is_three parts three,
      sym (first_some-none _) ∙ sym limit ∙ has_limit,
      sym (first_some-none _) ∙ sym remaining ∙ has_remaining,
      as_duration-eq-some (value_in (codes "reset") parts)
          (sym (first_some-none _) ∙ sym reset ∙ has_reset),
    )

-- A header that is accepted has exactly three parts, and gives the limit, the remaining requests and
-- the reset time, each by a part of its own name, in any order; the reset time counts seconds.
parse_rate_limit_sound :
    (header : Text) (rl : RateLimit)
    → parse_rate_limit header ≡ some rl
    → (length (parts_of header) ≡ 3)
      × (value_in (codes "limit") (parts_of header) ≡ some rl.limit)
      × (value_in (codes "remaining") (parts_of header) ≡ some rl.remaining)
      × ((v : ℤ) × (value_in (codes "reset") (parts_of header) ≡ some v)
          × (rl.reset ≡ duration_of v))
unfolding parse_rate_limit
parse_rate_limit_sound header rl h = elim (Bool-cases (is_three (parts_of header))) [
  | inr other ↦ cc (rw other at h)
  | inl three ↦
      let (seen, recorded, ended) =
        bind-eq-some (record_parts (parts_of header) nothing_seen) complete (rw three at h) in
      accepted (parts_of header) seen rl three recorded ended
]
