-- ===== src/Lib.antt =====
-- StatixAgent: a Linux monitoring agent that reports to, and is controlled from, a Telegram chat.
--
-- The agent (cmd/statix-agent, internal/agent) samples the host, runs each reading through the alert
-- engine (internal/alert), and sends what the engine reports. SSH log lines go through the parser and the
-- brute-force detector (internal/sshwatch). Presses on the bot's inline keyboards come back as callback
-- data, which internal/tgui encodes and decodes, and every action that changes the host is asked about
-- first: internal/tgui keeps the questions as one-use tokens.
--
-- Which file models which part:
--   Alert           internal/alert/alert.go, the engine: `Threshold`, `Check`, `Seed`, `Event`, `Snooze`,
--                   `Unsnooze`, `SnoozedUntil`, `Active` and the `step` that they share. State.antt has the
--                   engine's view of one key and runs of calls; the other children have what holds of runs.
--   Brute           internal/sshwatch/brute.go, the detector: `Record`, `Count` and the `prune` inside.
--                   Spec.antt has a reference that keeps all attempts of one address.
--   Tgui.Codec      internal/tgui/codec.go: `Encode`, `Decode`, `IsCall`, `validID`, `validArg`.
--   Tgui.Tokens     internal/tgui/confirm.go, the token store: `Mint`, `MintTTL`, `Rebind`, `Claim`,
--                   `Cancel`, `Finish` and the `evict` and `take` inside. Runs.antt has runs of calls.
--   Tgui.Screens    internal/tgui/screen.go: `Keyboard`, `Open`, `OpenNew` and the types of views.
--   Tgui.Registry   internal/tgui/action.go and `Footer`: `AddScreen`, `AddAction`, `Render`, `Show`, `Back`,
--                   `Dispatch`. Built.antt has the registries that startup can build.
--   Tgui.Legacy     internal/tgui/legacy.go: `NewLegacyTable` and `Lookup`.
--   Trust           internal/sshwatch/truststore.go: `LoadTrustStore`, `Add`, `Remove` and `save`, with the
--                   file as part of the state. Runs.antt has starts followed by changes.
--   StateFile       internal/sshwatch/statefile.go: `WriteStateFile`, with what its callers may rely on in
--                   Replaced.antt.
--   Agent.Authorize internal/agent/authorize.go: `authorize`, the gate of commands and presses.
--   Agent.Replay    internal/agent/replay.go, `botLoop` of agent.go and `Parse` of internal/bot/router.go: updates
--                   and the cursor that is saved before those that may change state.
--   Firewall        internal/agent/fwufw.go, fwplan.go and parts of fwrules.go, fwbackend.go:
--                   Rules (the verdict on a port), Rows (reading the status text), SshPorts (the ports of
--                   sshd), Ports and Sources (typed commands), Specs and Labels (rules as words and texts),
--                   Simulate (a plan on the rows), Plan (`planSpecs`, `restorePlan`, `inverse`), SshPlan
--                   (`sshPortPlan`), Guard (`sshGuard`), Listed (rows and their specs), Shown
--                   (`ufw show added` and the commands of a plan), Pending (`fwPlans`)
--                   and Flow (`planFor`, and `runPlan` until its trial starts).
--   Firewall.Trial  internal/agent/fwdeadman.go and `FwBackend` of fwbackend.go, the dead-man switch: Rollback
--                   (`rollbackLocked`, `revertForeign`, `lockoutRisk`), Timers (`armLayer1`, `armTrial`,
--                   `rebindTrial`, `countdownTick`), Conns (`parseSSEstablished`, `pruneSnapshots`), Presses
--                   (`keepTrial`, `rollbackTrial`, `autoRollback`, `reconcileFwTrial`, `RunFwRollback`), Run
--                   (`runTrial`, with the states between its steps) and Events (all of these in any order).
--   Firewall.Ufw    internal/agent/fwbackend.go, `ufwBackend` (running ufw, `Apply`, `Revert`, `Commit`), with
--                   Snapshots (`probeUFW` of firewall.go, `Snapshot`, `loadSnap`, `Hash`, `Restore`).
--   Expiry          the eviction that the token store and `fwPlans` share, from internal/tgui/confirm.go
--                   and internal/agent/fwplan.go.
--   Netip           the part of package net/netip that the firewall uses.
--   Prelude         what they share: equality tests, lists, maps, byte strings, integers and times.
--
-- How the code is translated. A string is the list of its bytes. A map of Go is an association list
-- that is read through `get`, `put` and `del`; a missing key gives what the source does with the
-- zero value. A time is a count of nanoseconds since Go's zero time and a duration is an integer;
-- differences of times are taken to stay inside 64 bits, as they do within 292 years. `int` counters
-- that would need 2^63 steps to overflow are integers. A mutex that a method holds throughout is
-- left out, and what the clock or the random source gave is an argument. A panic is `none`. A
-- screen's `Render`, the gate of a press and the handlers of old buttons are arguments; the first
-- two act on a world of any type. Floating-point numbers are a parameter (Prelude.Float): a type
-- with the comparisons and operations that the source uses, of which nothing is assumed; so is the
-- formatting of numbers by `fmt.Sprintf`. The functions of strings, slices and strconv are written out
-- in Prelude for bytes, with the letters and spaces of ASCII and 64-bit `Atoi`. Addresses are numbers;
-- their texts (`ParseAddr`, `ParsePrefix`, `String`) are the parameter `NetText`, and the digest of rule
-- lists is a parameter too. Only the printing of digits has a number of rounds, as many as the number,
-- and a round divides by ten. No other model has fuel: all loops run over a list.
--
-- A trial's state is `current.json`, the snapshot directories, the timers of the agent's process and a
-- world. The backend, the clock, commands, sockets, the bot, the confirm tokens and the lock are the record
-- `Host` of functions on the world, each of which may fail and change the world; nothing is assumed of them.
-- `WriteStateFile` replaces a file by a rename, so that the file of a trial is the old one or the new one. The
-- calls that may change rules are also listed in the state, which the code does not read.
--
-- ufw's files and commands are the records `Machine` and `Files` of functions on a world, `WriteStateFile` is
-- written out on them for the snapshots, and the snapshots' theorems take what they rely on as the record
-- `FileLaws`: of the four files of one directory, of temporary files beside them, and of the listing commands
-- and the reload of ufw's own binaries. `Conns` reads the output of ss; the trial takes the connections
-- from `Host`. Restarts of the bot's loop are events, between polls; a poll that fails changes nothing.
--
-- Not modelled here: the firewalld backend, the press and chat rate limits (floating-point buckets), the
-- confirm screens' handlers, reading /proc, /sys and utmp, the HTTP client of Telegram, child processes, the
-- installer, and the screens' texts. The texts of refusals and of the confirm screen's lines are data types.
pub mod Prelude
pub mod Netip
pub mod Alert
pub mod Brute
pub mod StateFile
pub mod Tgui
pub mod Trust
pub mod Agent
pub mod Expiry
pub mod Firewall
