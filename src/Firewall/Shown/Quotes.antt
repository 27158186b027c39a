-- ===== src/Firewall/Shown/Quotes.antt =====
-- Specs that are written for a shell are split again as ufw's lists are.
use statixagent.Prelude.{Bool, true, not, ◌&&◌, List, [], ◌∷◌, ◌==◌, nat_eq, str_eq}
use statixagent.Prelude.Text.{Str}
use statixagent.Firewall.Shown.{is_quote, is_gap}

-- No byte is a single quote.
abbrev pub no_quote : Str → Bool
no_quote [] = true
no_quote (c ∷ s) = not (c == 39) && no_quote s

abbrev pub no_quotes : List Str → Bool
no_quotes [] = true
no_quotes (a ∷ args) = no_quote a && no_quotes args

-- No byte is a quote or a gap.
abbrev is_bare : Str → Bool
is_bare [] = true
is_bare (c ∷ s) = not (is_quote c) && not (is_gap c) && is_bare s
