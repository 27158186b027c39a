-- ===== src/Firewall/SshPorts.antt =====
-- internal/agent/fwufw.go: the ports that sshd listens on.
pub mod Bounds
use statixagent.Prelude.{
  ℕ, ◌+◌, ◌-◌, Bool, true, false, not, ◌&&◌, ◌||◌, Option, none, some, List, [], ◌∷◌, ◌++◌, ◌==◌,
  nat_eq, str_eq, ltb, leb, length, mem?, get_or, if◌then◌else◌,
}
use statixagent.Prelude.Int.{ℤ, pos, negsuc}
use statixagent.Prelude.Text.{Str, codes, cut, cut_prefix, split}
use statixagent.Prelude.Decimal.{atoi}
use statixagent.Prelude.Strings.{cut_last, contains, equal_fold, to_lower, fields, trim_space}
use statixagent.Firewall.Rows.{max_port}

abbrev pub port_in_range : Option ℤ → Option ℕ
port_in_range (some (pos p)) = if leb 1 p && leb p max_port then some p else none
port_in_range _ = none

-- `validPort`
unfoldable pub valid_port : Str → Option ℕ
valid_port s = port_in_range (atoi s)

-- The text behind the last colon; all of it without one.
unfoldable pub port_part : Str → Str
unfolding cut_last
port_part addr = elim (cut_last addr b':') [ none ↦ addr | some (before, after) ↦ after ]

abbrev pub push_port : Option ℕ → List ℕ → List ℕ
push_port none ports = ports
push_port (some p) ports = p ∷ ports

-- Parsers that read a port from each line by itself.
unfoldable pub each_line : (Str → Option ℕ) → List Str → List ℕ
each_line read [] = []
each_line read (line ∷ lines) = push_port (read line) (each_line read lines)

abbrev pub in_lines : (Str → Option ℕ) → Str → List ℕ
unfolding each_line
in_lines read out = let (line, lines) = split out 10 in each_line read (line ∷ lines)

abbrev pub port_words : List Str → Option ℕ
unfolding valid_port
port_words (w ∷ p ∷ []) = if w == codes "port" then valid_port p else none
port_words _ = none

unfoldable pub parse_sshd_t_ports : Str → List ℕ
unfolding fields
parse_sshd_t_ports out = in_lines (λ line. port_words (fields line)) out

-- The variables of the loop over the sockets' lines.
pub record Socket : Type 0 where
  pub ports : List ℕ
  pub pending : List ℕ
  pub is_active : Bool

abbrev pub flush : Socket → Socket
flush s = record {
  ports = if s.is_active then s.ports ++ s.pending else s.ports;
  pending = [];
  is_active = false;
}

abbrev pub listen_port : Str → Option ℕ
unfolding valid_port port_part
listen_port rest = let (addr, _, _) = cut rest b' ' in valid_port (port_part addr)

abbrev pub pend : Option ℕ → Socket → Socket
pend none s = s
pend (some p) s = record s { pending = s.pending ++ p ∷ [] }

unfoldable pub socket_line : Str → Socket → Socket
unfolding trim_space
socket_line line s =
    let text = trim_space line in
    if text == []
    then flush s
    else if text == codes "ActiveState=active"
    then record s { is_active = true }
    else elim (cut_prefix text (codes "Listen=")) [
      | none ↦ s
      | some rest ↦ pend (listen_port rest) s
    ]

unfoldable pub socket_lines : List Str → Socket → Socket
unfolding socket_line
socket_lines [] s = flush s
socket_lines (line ∷ lines) s = socket_lines lines (socket_line line s)

abbrev pub no_socket : Socket
no_socket = record { ports = []; pending = []; is_active = false }

unfoldable pub parse_socket_listen : Str → List ℕ
unfolding socket_lines
parse_socket_listen out =
    let (line, lines) = split out 10 in (socket_lines (line ∷ lines) no_socket).ports

-- the line of `ss` that has a sixth word and names sshd
abbrev pub ss_line : Str → Option ℕ
unfolding fields contains valid_port port_part
ss_line line =
    let f = fields line in
    if ltb (length f) 6 || not (contains line (b'"' ∷ codes "sshd" ++ b'"' ∷ b',' ∷ []))
    then none
    else valid_port (port_part (get_or f 3 []))

unfoldable pub parse_ss_listen : Str → List ℕ
parse_ss_listen out = in_lines ss_line out

abbrev pub config_words : List Str → Option ℕ
unfolding valid_port
config_words (w ∷ p ∷ ws) = if equal_fold w (codes "port") then valid_port p else none
config_words _ = none

unfoldable pub parse_sshd_config_ports : Str → List ℕ
unfolding fields to_lower
parse_sshd_config_ports text = in_lines (λ line. config_words (fields line)) text

-- `slices.Sort` and `slices.Compact`
unfoldable pub insert_port : ℕ → List ℕ → List ℕ
insert_port p [] = p ∷ []
insert_port p (q ∷ ports) =
    let later = insert_port p ports in
    if ltb p q then p ∷ q ∷ ports else if p == q then q ∷ ports else q ∷ later

unfoldable pub sort_ports : List ℕ → List ℕ
unfolding insert_port
sort_ports [] = []
sort_ports (p ∷ ports) = insert_port p (sort_ports ports)

-- What a program gave: its output, that it was not found, or another failure.
pub data Ran : Type 0 where
  output : Str → Ran
  no_program failed : Ran

abbrev pub from_output : (Str → List ℕ) → Ran → List ℕ
from_output parse (output out) = parse out
from_output parse _ = []

-- `sshd -T` by its name, then by its path if it is not found.
abbrev pub sshd_ports : Ran → Ran → List ℕ
unfolding parse_sshd_t_ports
sshd_ports no_program second = from_output parse_sshd_t_ports second
sshd_ports first second = from_output parse_sshd_t_ports first

-- The answers of the machine: the runner's four programs, and the configuration file.
pub record Probes : Type 0 where
  pub sshd : Ran
  pub usr_sbin_sshd : Ran
  pub systemctl : Ran
  pub ss : Ran

unfoldable pub found_ports : Option Probes → Option Str → List ℕ
unfolding parse_sshd_t_ports parse_socket_listen parse_ss_listen parse_sshd_config_ports
found_ports runner config =
    elim runner [
      | none ↦ []
      | some a ↦
          sshd_ports a.sshd a.usr_sbin_sshd
          ++ from_output parse_socket_listen a.systemctl
          ++ from_output parse_ss_listen a.ss
    ]
    ++ elim config [ none ↦ [] | some text ↦ parse_sshd_config_ports text ]

-- The default port when no probe answers.
abbrev pub or_default : List ℕ → List ℕ
unfolding sort_ports
or_default [] = 22 ∷ []
or_default (p ∷ ports) = sort_ports (p ∷ ports)

unfoldable pub ssh_ports : Option Probes → Option Str → List ℕ
unfolding found_ports or_default
ssh_ports runner config = or_default (found_ports runner config)
