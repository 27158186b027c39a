-- ===== src/Firewall/Trial/Conns.antt =====
-- internal/agent/fwdeadman.go: the connections to the SSH ports, and the evidence that Keep needs.
use statixagent.Prelude.{
  ℕ, ◌+◌, Bool, false, not, ◌||◌, Option, none, some, List, [], ◌∷◌, ◌++◌, ◌==◌, nat_eq, str_eq,
  ltb, leb, mem?, if◌then◌else◌,
}
use statixagent.Prelude.Text.{Str, split}
use statixagent.Prelude.Strings.{fields}
use statixagent.Prelude.Time.{Time}
use statixagent.Prelude.Map.{Map, del}
use statixagent.Netip.{unmap}
use statixagent.Firewall.Trial.{AddrPort, SshConn, SnapInfo, Snap, Host, St, keep_snaps, snap_keep}

-- The text of addresses with ports, of package net/netip.
pub record AddrPortText : Type 0 where
  pub parse_addr_port : Str → Option AddrPort
  pub addr_port_text : AddrPort → Str

-- `key`, and the keys of connections
abbrev pub conn_key : AddrPortText → SshConn → Str
conn_key t c = t.addr_port_text c.near ++ b'>' ∷ t.addr_port_text c.peer

unfoldable pub endpoints : AddrPortText → List Str → List AddrPort
endpoints t [] = []
endpoints t (f ∷ fs) =
    let rest = endpoints t fs in
    elim (t.parse_addr_port f) [ none ↦ rest | some ap ↦ record ap { addr = unmap ap.addr } ∷ rest ]

-- The first two end points, if the first is of an SSH port.
abbrev pub ssh_conn : List ℕ → List AddrPort → Option SshConn
ssh_conn ports (a ∷ b ∷ eps) =
    if mem? a.port ports then some (record { near = a; peer = b }) else none
ssh_conn ports _ = none

unfoldable pub established_lines : AddrPortText → List ℕ → List Str → List SshConn
unfolding endpoints fields
established_lines t ports [] = []
established_lines t ports (line ∷ lines) =
    let rest = established_lines t ports lines in
    elim (ssh_conn ports (endpoints t (fields line))) [ none ↦ rest | some c ↦ c ∷ rest ]

-- `parseSSEstablished`
unfoldable pub parse_ss_established : AddrPortText → Str → List ℕ → List SshConn
unfolding established_lines
parse_ss_established t out ports =
    let (line, lines) = split out 10 in established_lines t ports (line ∷ lines)

-- A connection that is not of the baseline.
unfoldable pub is_new_conn : (SshConn → Str) → List Str → List SshConn → Bool
is_new_conn key baseline [] = false
is_new_conn key baseline (c ∷ conns) = not (mem? (key c) baseline) || is_new_conn key baseline conns

-- The snapshots that `pruneSnapshots` removes, of the list with the newest first, from place `i` on.
unfoldable pub pruned : Time → Str → ℕ → List SnapInfo → List Str
pruned now keep i [] = []
pruned now keep i (s ∷ snaps) =
    let rest = pruned now keep (i + 1) snaps in
    if s.id == keep || ltb i keep_snaps
    then rest
    else if ltb (s.taken + snap_keep) now
    then s.id ∷ rest
    else rest

-- The newest first, and those of one time in their order: `slices.SortStableFunc`.
unfoldable pub insert_snap : SnapInfo → List SnapInfo → List SnapInfo
insert_snap s [] = s ∷ []
insert_snap s (t ∷ snaps) =
    let later = insert_snap s snaps in if leb t.taken s.taken then s ∷ t ∷ snaps else t ∷ later

unfoldable pub sort_snaps : List SnapInfo → List SnapInfo
unfolding insert_snap
sort_snaps [] = []
sort_snaps (s ∷ snaps) = insert_snap s (sort_snaps snaps)

unfoldable pub del_all : List Str → Map Str Snap → Map Str Snap
unfolding del
del_all [] m = m
del_all (id ∷ ids) m = del_all ids (del m id)

-- `pruneSnapshots`
unfoldable pub prune_snapshots : {W : Type 0} → Host W → Str → St W → St W
unfolding pruned sort_snaps del_all
prune_snapshots h keep st = record st {
  snaps = del_all (pruned (h.now st.world) keep 0 (sort_snaps (h.list_snaps st.world))) st.snaps;
}
