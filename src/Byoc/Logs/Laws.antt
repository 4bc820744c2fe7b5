-- ===== src/Byoc/Logs/Laws.antt =====
-- What is kept of the plugin's output, and what a line of it says.
use terraform_provider_redpa.Base.{
  ℕ, zero, suc, ◌+◌, ◌-◌, ◌≤◌, ◌<◌, ◌≡◌, refl, sym, ap, ◌∙◌, ◌≢◌, ◌↔◌, inl, inr, true, false, some,
  List, [], ◌∷◌, ◌++◌, map, arith, ltb, ◌==◌, ==_iff, Bool-cases, length, drop, length-append, All,
  Text,
}
use terraform_provider_redpa.Byoc.Logs.{
  ZapLine, prepend, split_tabs, of_parts, parse_zap_log, max_lines, append, forward_logs,
}
use mathlib.Core.List.{append_assoc, append-nil}

abbrev pub last_of : List Text → List Text
last_of lines = drop (length lines - max_lines) lines

append-few :
    (kept : List Text) (line : Text) → length kept < 60 → append kept line ≡ kept ++ line ∷ []
unfolding append
append-few kept line h = ground arith

append-full :
    (first : Text) (kept : List Text) (line : Text)
    → length kept ≡ 59
    → append (first ∷ kept) line ≡ kept ++ line ∷ []
unfolding append
append-full first kept line h = ground arith

dropped-first :
    (first : Text) (kept : List Text) (line : Text) (lines : List Text)
    → length (first ∷ kept) ≡ 60
    → last_of (first ∷ kept ++ line ∷ lines) ≡ last_of (kept ++ line ∷ lines)
dropped-first first kept line lines h =
    let n : length (kept ++ line ∷ lines) ≡ length lines + 60 =
      length-append kept (line ∷ lines) ∙ omega (arith, h) in
    let shift : suc (length lines + 60) - 60 ≡ suc (length lines) = omega arith in
    let rest : length lines + 60 - 60 ≡ length lines = omega arith in rw (n, shift, rest) refl

last_of-step_full :
    (kept : List Text) (line : Text) (lines : List Text)
    → length kept ≡ 60
    → (length (append kept line) ≤ 60)
      × (last_of (append kept line ++ lines) ≡ last_of (kept ++ line ∷ lines))
last_of-step_full [] line lines h = absurd (omega (arith, h))
last_of-step_full (first ∷ kept) line lines h =
    let made = append-full first kept line (omega (arith, h)) in
    let count = length-append kept (line ∷ []) in
    let joined = append_assoc kept (line ∷ []) lines in
    (
      rw (made, count) (omega (arith, h)),
      rw (made, joined) (sym (dropped-first first kept line lines h)),
    )

-- Passing one line on.
last_of-step :
    (kept : List Text) (line : Text) (lines : List Text)
    → length kept ≤ 60
    → (length (append kept line) ≤ 60)
      × (last_of (append kept line ++ lines) ≡ last_of (kept ++ line ∷ lines))
last_of-step kept line lines h = elim (Bool-cases (ltb (length kept) 60)) [
  | inl few ↦
      let made = append-few kept line (ground arith) in
      let count = length-append kept (line ∷ []) in
      (rw (made, count) (ground arith), rw (made, append_assoc kept (line ∷ []) lines) refl)
  | inr full ↦ last_of-step_full kept line lines (ground arith)
]

forward_logs-kept :
    (remove_color : Text → Text) (kept lines : List Text)
    → length kept ≤ 60
    → (forward_logs remove_color kept lines).0 ≡ last_of (kept ++ map remove_color lines)
unfolding forward_logs
forward_logs-kept remove_color kept [] h = ground (arith, append-nil kept)
forward_logs-kept remove_color kept (l ∷ lines) h =
    let (few, next) = last_of-step kept (remove_color l) (map remove_color lines) h in
    forward_logs-kept remove_color (append kept (remove_color l)) lines few ∙ next

-- After the output of a command, however many lines it had and in whatever order its two readers
-- passed them on, the lines kept for the error are the last 60 of them, each passed through
-- removeColor.
pub forward_logs-last :
    (remove_color : Text → Text) (lines : List Text)
    → (forward_logs remove_color [] lines).0 ≡ last_of (map remove_color lines)
forward_logs-last remove_color lines = forward_logs-kept remove_color [] lines (omega arith)

abbrev pub HasNoTab : Text → Type 0
HasNoTab s = All (λ c. c ≢ 9) s

split_tabs-tab :
    (n c : ℕ) (s : Text) → c == 9 ≡ true → split_tabs (suc n) (c ∷ s) ≡ [] ∷ split_tabs n s
unfolding split_tabs
split_tabs-tab n c s e = rw (e, split_tabs) refl

split_tabs-other :
    (n c : ℕ) (s : Text)
    → c == 9 ≡ false
    → split_tabs (suc n) (c ∷ s) ≡ prepend c (split_tabs (suc n) s)
unfolding split_tabs
split_tabs-other n c s e = rw (e, split_tabs) refl

split_tabs-part :
    (n : ℕ) (s rest : Text)
    → HasNoTab s
    → split_tabs (suc n) (s ++ 9 ∷ rest) ≡ s ∷ split_tabs n rest
unfolding split_tabs prepend
split_tabs-part n [] rest h = refl
split_tabs-part n (c ∷ s) rest (p, h) = elim (Bool-cases (c == 9)) [
  | inl e ↦ absurd (p (ground arith))
  | inr e ↦ rw (split_tabs-other n c (s ++ 9 ∷ rest) e, split_tabs-part n s rest h) refl
]

abbrev pub line_of : ZapLine → Text
line_of z = z.date_time ++ 9 ∷ (z.level ++ 9 ∷ (z.logger ++ 9 ∷ (z.file ++ 9 ∷ z.message)))

prepend-two :
    (c : ℕ) (r : List Text) (a b : Text) (ps : List Text)
    → prepend c r ≡ a ∷ b ∷ ps
    → (p : Text) × (r ≡ p ∷ b ∷ ps) × (a ≡ c ∷ p)
unfolding prepend
prepend-two c [] a b ps h = cc
prepend-two c (p ∷ []) a b ps h = cc
prepend-two c (p ∷ q ∷ r) a b ps h = (p, cc, cc)

-- A first part that is followed by another one ends at the first tab.
split_tabs-first :
    (n : ℕ) (s a b : Text) (ps : List Text)
    → split_tabs n s ≡ a ∷ b ∷ ps
    → (m : ℕ) × (n ≡ suc m)
      × HasNoTab a
      × (rest : Text) × (s ≡ a ++ 9 ∷ rest)
      × (split_tabs m rest ≡ b ∷ ps)
unfolding split_tabs prepend
split_tabs-first n [] a b ps h = cc
split_tabs-first zero (c ∷ s) a b ps h = cc
split_tabs-first (suc n) (c ∷ s) a b ps h = elim (Bool-cases (c == 9)) [
  | inl e ↦
      let same_parts : [] ∷ split_tabs n s ≡ a ∷ b ∷ ps = sym (split_tabs-tab n c s e) ∙ h in
      let none_before : [] ≡ a = cc in
      (n, refl, rw (sym none_before) tt, s, rw (sym none_before, (==_iff c 9).0 e) refl, cc)
  | inr e ↦
      let (p, more, grown) =
        prepend-two c (split_tabs (suc n) s) a b ps (sym (split_tabs-other n c s e) ∙ h) in
      let (m, one, clean, rest, made, parts) = split_tabs-first (suc n) s p b ps more in
      (m, one, rw grown (λ tab. ground arith, clean), rest, rw (grown, made) refl, parts)
]

split_tabs-zero : (s : Text) → split_tabs 0 s ≡ s ∷ []
unfolding split_tabs
split_tabs-zero [] = refl
split_tabs-zero (c ∷ s) = refl

of_parts-five :
    (ps : List Text) (z : ZapLine)
    → of_parts ps ≡ some z
    → ps ≡ z.date_time ∷ z.level ∷ z.logger ∷ z.file ∷ z.message ∷ []
of_parts-five [] z h = cc
of_parts-five (a ∷ []) z h = cc
of_parts-five (a ∷ b ∷ []) z h = cc
of_parts-five (a ∷ b ∷ c ∷ []) z h = cc
of_parts-five (a ∷ b ∷ c ∷ d ∷ []) z h = cc
of_parts-five (a ∷ b ∷ c ∷ d ∷ e ∷ []) z h = cc
of_parts-five (a ∷ b ∷ c ∷ d ∷ e ∷ f ∷ ps) z h = cc

abbrev pub HasCleanHead : ZapLine → Type 0
HasCleanHead z = HasNoTab z.date_time × HasNoTab z.level × HasNoTab z.logger × HasNoTab z.file

parse_zap_log_sound :
    (line : Text) (z : ZapLine) → parse_zap_log line ≡ some z → (line ≡ line_of z) × HasCleanHead z
unfolding parse_zap_log
parse_zap_log_sound line z h =
    let parts = of_parts-five (split_tabs 4 line) z h in
    let (m1, n1, date, s1, made1, parts1) = split_tabs-first 4 line z.date_time z.level _ parts in
    let (m2, n2, level, s2, made2, parts2) = split_tabs-first m1 s1 z.level z.logger _ parts1 in
    let (m3, n3, logger, s3, made3, parts3) = split_tabs-first m2 s2 z.logger z.file _ parts2 in
    let (m4, n4, file, s4, made4, parts4) = split_tabs-first m3 s3 z.file z.message [] parts3 in
    let none_left : 0 ≡ m4 = omega arith in
    let last : s4 ∷ [] ≡ z.message ∷ [] = sym (split_tabs-zero s4) ∙ (rw none_left parts4) in
    let message : s4 ≡ z.message = cc in
    (rw (made1, made2, made3, made4, message) refl, (date, level, logger, file))

parse_zap_log-line_of : (z : ZapLine) → HasCleanHead z → parse_zap_log (line_of z) ≡ some z
unfolding parse_zap_log
parse_zap_log-line_of z (date, level, logger, file) =
    let tail4 = z.message in
    let tail3 = z.file ++ 9 ∷ tail4 in
    let tail2 = z.logger ++ 9 ∷ tail3 in
    let tail1 = z.level ++ 9 ∷ tail2 in
    let p1 = split_tabs-part 3 z.date_time tail1 date in
    let p2 = split_tabs-part 2 z.level tail2 level in
    let p3 = split_tabs-part 1 z.logger tail3 logger in
    let p4 = split_tabs-part 0 z.file tail4 file in
    let parts : split_tabs 4 (line_of z)
        ≡ z.date_time ∷ z.level ∷ z.logger ∷ z.file ∷ z.message ∷ [] =
      p1 ∙ cc (p2, p3, p4, split_tabs-zero z.message) in
    ap of_parts parts

-- A line reads as a log line exactly if it is the date, the level, the logger, the file and the
-- message with tabs between them, where no tab stands in the first four.
pub parse_zap_log_iff :
    (line : Text) (z : ZapLine) → parse_zap_log line ≡ some z ↔ (line ≡ line_of z) × HasCleanHead z
parse_zap_log_iff line z =
    (parse_zap_log_sound line z, λ (made, clean). rw made (parse_zap_log-line_of z clean))
