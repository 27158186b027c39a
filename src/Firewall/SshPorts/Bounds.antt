-- ===== src/Firewall/SshPorts/Bounds.antt =====
-- The ports that are found.
use statixagent.Prelude.{
  ==_iff, ◌<◌, get_or, Option-cases, inl, inr, ℕ, ◌≡◌, ◌≢◌, refl, Bool, true, ◌&&◌, Option, none,
  some, List, [], ◌∷◌, ◌++◌, nat_eq, str_eq, ltb, leb, arith,
}
use statixagent.Prelude.Int.{ℤ, pos, negsuc}
use statixagent.Prelude.Text.{Str, codes, cut_prefix, split}
use statixagent.Prelude.Decimal.{atoi}
use statixagent.Prelude.Strings.{fields, trim_space}
use statixagent.Firewall.Rows.{max_port}
use statixagent.Firewall.SshPorts.{
  in_lines, no_socket, flush, pend, port_part, port_in_range, valid_port, push_port, each_line,
  port_words, parse_sshd_t_ports, Socket, socket_line, socket_lines, listen_port,
  parse_socket_listen, ss_line, parse_ss_listen, config_words, parse_sshd_config_ports, insert_port,
  sort_ports, or_default, Ran, output, no_program, failed, from_output, sshd_ports, Probes,
  found_ports, ssh_ports,
}

abbrev pub in_bounds : ℕ → Bool
in_bounds p = leb 1 p && leb p max_port

abbrev pub all_in_bounds : List ℕ → Bool
all_in_bounds [] = true
all_in_bounds (p ∷ ports) = in_bounds p && all_in_bounds ports

-- In bounds, if there is one.
abbrev pub port_ok : Option ℕ → Bool
port_ok none = true
port_ok (some p) = in_bounds p

-- Each port is less than the next.
abbrev pub above : ℕ → List ℕ → Bool
above p [] = true
above p (q ∷ ports) = ltb p q

abbrev pub ascending : List ℕ → Bool
ascending [] = true
ascending (p ∷ ports) = above p ports && ascending ports

port_in_range-ok : (n : Option ℤ) → port_ok (port_in_range n) ≡ true
port_in_range-ok none = refl
port_in_range-ok (some (pos p)) = ground arith
port_in_range-ok (some (negsuc p)) = refl

valid_port-ok : (s : Str) → port_ok (valid_port s) ≡ true
unfolding valid_port
valid_port-ok s = port_in_range-ok (atoi s)

all_in_bounds-append :
    (ps qs : List ℕ)
    → all_in_bounds ps ≡ true
    → all_in_bounds qs ≡ true
    → all_in_bounds (ps ++ qs) ≡ true
all_in_bounds-append [] qs h k = k
all_in_bounds-append (p ∷ ps) qs h k = ground (arith, all_in_bounds-append ps qs)

all_in_bounds-push :
    (o : Option ℕ) (ports : List ℕ)
    → port_ok o ≡ true
    → all_in_bounds ports ≡ true
    → all_in_bounds (push_port o ports) ≡ true
all_in_bounds-push none ports h k = k
all_in_bounds-push (some p) ports h k = ground arith

all_in_bounds-each_line :
    (read : Str → Option ℕ) (lines : List Str)
    → ((line : Str) → port_ok (read line) ≡ true)
    → all_in_bounds (each_line read lines) ≡ true
unfolding each_line
all_in_bounds-each_line read [] h = refl
all_in_bounds-each_line read (line ∷ lines) h =
    all_in_bounds-push (read line) (each_line read lines) (h line)
      (all_in_bounds-each_line read lines h)

port_words-ok : (ws : List Str) → port_ok (port_words ws) ≡ true
unfolding port_words
port_words-ok [] = refl
port_words-ok (w ∷ []) = refl
port_words-ok (w ∷ p ∷ []) = ground (arith, valid_port-ok p)
port_words-ok (w ∷ p ∷ q ∷ ws) = refl

config_words-ok : (ws : List Str) → port_ok (config_words ws) ≡ true
unfolding config_words
config_words-ok [] = refl
config_words-ok (w ∷ []) = refl
config_words-ok (w ∷ p ∷ ws) = ground (arith, valid_port-ok p)

listen_port-ok : (rest : Str) → port_ok (listen_port rest) ≡ true
unfolding listen_port
listen_port-ok rest = valid_port-ok _

ss_line-ok : (line : Str) → port_ok (ss_line line) ≡ true
unfolding ss_line
ss_line-ok line = ground (arith, valid_port-ok (port_part (get_or (fields line) 3 [])))

-- The ports taken, and those that wait for the unit to be active.
abbrev pub socket_ok : Socket → Bool
socket_ok s = all_in_bounds s.ports && all_in_bounds s.pending

socket_ok-flush : (s : Socket) → socket_ok s ≡ true → socket_ok (flush s) ≡ true
socket_ok-flush s h = ground (arith, all_in_bounds-append s.ports s.pending)

socket_ok-pend :
    (o : Option ℕ) (s : Socket)
    → port_ok o ≡ true
    → socket_ok s ≡ true
    → socket_ok (pend o s) ≡ true
socket_ok-pend none s h k = k
socket_ok-pend (some p) s h k = ground (arith, all_in_bounds-append s.pending (p ∷ []))

socket_ok-line :
    (line : Str) (s : Socket) → socket_ok s ≡ true → socket_ok (socket_line line s) ≡ true
unfolding socket_line
socket_ok-line line s h = elim (Option-cases (cut_prefix (trim_space line) (codes "Listen="))) [
  | inl other ↦ rw (socket_line, other) (ground (arith, socket_ok-flush s h))
  | inr (rest, listen) ↦
      rw (socket_line, listen)
        (ground
          (arith, socket_ok-flush s h, socket_ok-pend (listen_port rest) s (listen_port-ok rest) h))
]

socket_ok-lines :
    (lines : List Str) (s : Socket) → socket_ok s ≡ true → socket_ok (socket_lines lines s) ≡ true
unfolding socket_lines
socket_ok-lines [] s h = socket_ok-flush s h
socket_ok-lines (line ∷ lines) s h =
    socket_ok-lines lines (socket_line line s) (socket_ok-line line s h)

ok-in_lines :
    (read : Str → Option ℕ) (out : Str)
    → ((line : Str) → port_ok (read line) ≡ true)
    → all_in_bounds (in_lines read out) ≡ true
unfolding in_lines
ok-in_lines read out h =
    let (line, lines) = split out 10 in all_in_bounds-each_line read (line ∷ lines) h

ok-sshd_t : (out : Str) → all_in_bounds (parse_sshd_t_ports out) ≡ true
unfolding parse_sshd_t_ports
ok-sshd_t out = ok-in_lines (λ l. port_words (fields l)) out (λ l. port_words-ok (fields l))

ok-config : (text : Str) → all_in_bounds (parse_sshd_config_ports text) ≡ true
unfolding parse_sshd_config_ports
ok-config text = ok-in_lines (λ l. config_words (fields l)) text (λ l. config_words-ok (fields l))

ok-ss : (out : Str) → all_in_bounds (parse_ss_listen out) ≡ true
unfolding parse_ss_listen
ok-ss out = ok-in_lines ss_line out ss_line-ok

ok-socket : (out : Str) → all_in_bounds (parse_socket_listen out) ≡ true
unfolding parse_socket_listen
ok-socket out =
    let (line, lines) = split out 10 in
    ground (arith, socket_ok-lines (line ∷ lines) no_socket refl)

ok-from_output :
    (parse : Str → List ℕ) (ran : Ran)
    → ((out : Str) → all_in_bounds (parse out) ≡ true)
    → all_in_bounds (from_output parse ran) ≡ true
ok-from_output parse (output out) h = h out
ok-from_output parse no_program h = refl
ok-from_output parse failed h = refl

ok-sshd : (first second : Ran) → all_in_bounds (sshd_ports first second) ≡ true
unfolding sshd_ports
ok-sshd no_program second = ok-from_output parse_sshd_t_ports second ok-sshd_t
ok-sshd (output out) second = ok-sshd_t out
ok-sshd failed second = refl

ok-found_ports-none : (config : Option Str) → all_in_bounds (found_ports none config) ≡ true
unfolding found_ports
ok-found_ports-none none = refl
ok-found_ports-none (some text) = ok-config text

ok-found_ports :
    (runner : Option Probes) (config : Option Str)
    → all_in_bounds (found_ports runner config) ≡ true
unfolding found_ports
ok-found_ports none config = ok-found_ports-none config
ok-found_ports (some a) config =
    let first = sshd_ports a.sshd a.usr_sbin_sshd in
    let second = from_output parse_socket_listen a.systemctl in
    let third = from_output parse_ss_listen a.ss in
    all_in_bounds-append (first ++ second ++ third) (found_ports none config)
      (all_in_bounds-append (first ++ second) third
        (all_in_bounds-append first second (ok-sshd a.sshd a.usr_sbin_sshd)
          (ok-from_output parse_socket_listen a.systemctl ok-socket))
        (ok-from_output parse_ss_listen a.ss ok-ss))
      (ok-found_ports-none config)

all_in_bounds-insert :
    (p : ℕ) (ports : List ℕ)
    → in_bounds p ≡ true
    → all_in_bounds ports ≡ true
    → all_in_bounds (insert_port p ports) ≡ true
unfolding insert_port
all_in_bounds-insert p [] h k = ground arith
all_in_bounds-insert p (q ∷ ports) h k = ground (arith, all_in_bounds-insert p ports)

all_in_bounds-sort :
    (ports : List ℕ) → all_in_bounds ports ≡ true → all_in_bounds (sort_ports ports) ≡ true
unfolding sort_ports
all_in_bounds-sort [] h = refl
all_in_bounds-sort (p ∷ ports) h =
    ground (arith, all_in_bounds-insert p (sort_ports ports), all_in_bounds-sort ports)

above-insert :
    (q p : ℕ) (ports : List ℕ) → q < p → above q ports ≡ true → above q (insert_port p ports) ≡ true
unfolding insert_port
above-insert q p [] h k = ground arith
above-insert q p (r ∷ ports) h k = ground arith

ascending-insert :
    (p : ℕ) (ports : List ℕ) → ascending ports ≡ true → ascending (insert_port p ports) ≡ true
unfolding insert_port
ascending-insert p [] h = refl
ascending-insert p (q ∷ ports) h =
    ground (arith, ascending-insert p ports, above-insert q p ports, ==_iff p q)

ascending-sort : (ports : List ℕ) → ascending (sort_ports ports) ≡ true
unfolding sort_ports
ascending-sort [] = refl
ascending-sort (p ∷ ports) = ascending-insert p (sort_ports ports) (ascending-sort ports)

insert-ne-nil : (p : ℕ) (ports : List ℕ) → insert_port p ports ≢ []
unfolding insert_port
insert-ne-nil p [] = ground arith
insert-ne-nil p (q ∷ ports) = ground arith

ports_ok :
    (ports : List ℕ)
    → all_in_bounds ports ≡ true
    → (or_default ports ≢ [])
      × (all_in_bounds (or_default ports) ≡ true)
      × (ascending (or_default ports) ≡ true)
unfolding or_default sort_ports
ports_ok [] h = (ground arith, refl, refl)
ports_ok (p ∷ ports) h = (
  insert-ne-nil p (sort_ports ports),
  all_in_bounds-sort (p ∷ ports) h,
  ascending-sort (p ∷ ports),
)

-- The SSH ports that are found are never none, lie between 1 and 65535, and stand in ascending order
-- without repeats.
pub ssh_ports-InBounds :
    (runner : Option Probes) (config : Option Str)
    → (ssh_ports runner config ≢ [])
      × (all_in_bounds (ssh_ports runner config) ≡ true)
      × (ascending (ssh_ports runner config) ≡ true)
unfolding ssh_ports
ssh_ports-InBounds runner config =
    ports_ok (found_ports runner config) (ok-found_ports runner config)
