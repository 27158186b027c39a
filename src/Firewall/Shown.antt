-- ===== src/Firewall/Shown.antt =====
-- internal/agent/fwbackend.go: the specs that `ufw show added` lists, and the commands of a plan.
pub mod Quotes
use statixagent.Prelude.{
  ℕ, Bool, true, false, ◌||◌, Option, none, some, List, [], ◌∷◌, ◌++◌, ◌==◌, nat_eq, str_eq,
  if◌then◌else◌,
}
use statixagent.Prelude.Text.{Str, codes, cut_prefix, split}
use statixagent.Prelude.Strings.{trim_space}
use statixagent.Firewall.Simulate.{Change}
use statixagent.Firewall.SshPlan.{argv}
use statixagent.Firewall.Listed.{spec_text}

abbrev pub is_quote : ℕ → Bool
is_quote c = c == 39 || c == b'"'

abbrev pub is_gap : ℕ → Bool
is_gap c = c == 32 || c == 9

-- The loop of `splitQuoted`, with its variables: the open quote, whether a word has begun, and the word.
-- It runs on bytes; the bytes it looks for stand for themselves in UTF-8.
unfoldable pub read_quoted : Option ℕ → Bool → Str → Str → List Str
read_quoted quote in_word cur [] = if in_word then cur ∷ [] else []
read_quoted (some q) in_word cur (c ∷ s) =
    let closed = read_quoted none in_word cur s in
    let kept = read_quoted (some q) in_word (cur ++ c ∷ []) s in if c == q then closed else kept
read_quoted none in_word cur (c ∷ s) =
    let opened = read_quoted (some c) true cur s in
    let ended = cur ∷ read_quoted none false [] s in
    let between = read_quoted none false cur s in
    let kept = read_quoted none true (cur ++ c ∷ []) s in
    if is_quote c then opened else if is_gap c then (if in_word then ended else between) else kept

unfoldable pub split_quoted : Str → List Str
unfolding read_quoted
split_quoted s = read_quoted none false [] s

-- A line's spec, if it is one and no route rule.
abbrev pub shown_spec : List Str → Option (List Str)
shown_spec [] = none
shown_spec (w ∷ ws) = if w == codes "route" then none else some (w ∷ ws)

unfoldable pub show_line : Str → Option (List Str)
unfolding split_quoted
show_line line = elim (cut_prefix (trim_space line) (codes "ufw ")) [
  | none ↦ none
  | some rest ↦ shown_spec (split_quoted rest)
]

unfoldable pub show_lines : List Str → List (List Str)
unfolding show_line
show_lines [] = []
show_lines (line ∷ lines) =
    let rest = show_lines lines in elim (show_line line) [ none ↦ rest | some spec ↦ spec ∷ rest ]

unfoldable pub parse_show_added : Str → List (List Str)
unfolding show_lines
parse_show_added out = let (line, lines) = split out 10 in show_lines (line ∷ lines)

-- `Commands`
unfoldable pub commands : List Change → List Str
unfolding spec_text argv
commands [] = codes "ufw reload" ∷ []
commands (c ∷ plan) = (codes "ufw " ++ spec_text (argv c)) ∷ commands plan
