-- ===== src/Byoc/Logs.antt =====
-- The plugin's output: parseZapLog, lastLogs and forwardLogs. `remove_color`, a regular expression
-- of the library, is a parameter.
pub mod Laws
use terraform_provider_redpa.Base.{
  ℕ, zero, suc, ◌+◌, ◌-◌, ◌*◌, ◌/◌, ◌%◌, ◌^◌, ◌≤◌, ◌<◌, ◌≡◌, refl, sym, ap, ◌∙◌, ◌≢◌, ◌↔◌, ◌⊎◌, inl,
  inr, Bool, true, false, not, ◌&&◌, ◌||◌, Option, none, some, List, [], ◌∷◌, ◌++◌, map, arith, ltb,
  leb, ◌==◌, if◌then◌else◌, ltb→lt, ==_iff, ==_refl, Bool-cases, is_some, Option-cases, length,
  drop, length-append, length-drop, drop-append, All, All-append, Text, codes, same, is_empty,
  strip, has_prefix, or_else, trim_prefix, trim_suffix, contains, to_lower, cut, split, trim_func,
  trim_space, trim_quotes, join, same_sound, same_refl, same_iff, strip-append, strip_sound,
  has_prefix-append, trim_prefix-append, contains-append_middle, to_lower-append, Dict, lookup,
  insert, delete, lookup-insert, lookup-delete, HasDistinctKeys, ℤ, pos, negsuc, atoi,
  insert-HasDistinctKeys, delete-HasDistinctKeys,
}

pub record ZapLine : Type 0 where
  pub date_time : Text
  pub level : Text
  pub logger : Text
  pub file : Text
  pub message : Text

-- Puts a byte before the first part.
unfoldable pub prepend : ℕ → List Text → List Text
prepend c [] = (c ∷ []) ∷ []
prepend c (p ∷ ps) = (c ∷ p) ∷ ps

-- `strings.SplitN(line, "\t", n + 1)`: at most n cuts.
unfoldable pub split_tabs : ℕ → Text → List Text
split_tabs n [] = [] ∷ []
split_tabs zero (c ∷ s) = (c ∷ s) ∷ []
split_tabs (suc n) (c ∷ s) = elim (c == 9) [
  | true ↦ [] ∷ split_tabs n s
  | false ↦ prepend c (split_tabs (suc n) s)
]

abbrev pub of_parts : List Text → Option ZapLine
of_parts (a ∷ b ∷ c ∷ d ∷ e ∷ []) =
    some (record { date_time = a; level = b; logger = c; file = d; message = e })
of_parts other = none

unfoldable pub parse_zap_log : Text → Option ZapLine
unfolding split_tabs prepend
parse_zap_log line = of_parts (split_tabs 4 line)

abbrev pub max_lines : ℕ
max_lines = 60

-- `lastLogs.Append`.
unfoldable pub append : List Text → Text → List Text
append lines line =
    if length lines == max_lines then drop 1 lines ++ line ∷ [] else lines ++ line ∷ []

-- What goes to the log of the provider.
pub data Entry : Type 0 where
  info : Text → Entry
  warn : Text → Entry
  error : Text → Entry

abbrev rpk : Text → Text
rpk s = codes "rpk: " ++ s

abbrev pub entry_of : Text → Option ZapLine → Entry
entry_of line none = info (rpk line)
entry_of line (some z) =
    if same z.level (codes "DEBUG") || same z.level (codes "INFO")
    then info (rpk z.message)
    else if same z.level (codes "WARN")
    then warn (rpk z.message)
    else if same z.level (codes "ERROR")
    then error (rpk z.message)
    else info (rpk (z.level ++ 9 ∷ z.message))

-- The lines of one reader, one after the other: the last lines, and the entries logged. With the
-- two readers of a command, `lines` is the order in which they take the mutex.
unfoldable pub forward_logs : (Text → Text) → List Text → List Text → List Text × List Entry
forward_logs remove_color kept [] = (kept, [])
forward_logs remove_color kept (l ∷ lines) =
    let line = remove_color l in
    let rest = forward_logs remove_color (append kept line) lines in
    (rest.0, entry_of line (parse_zap_log line) ∷ rest.1)
