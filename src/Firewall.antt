-- ===== src/Firewall.antt =====
-- internal/agent/fwufw.go, fwplan.go and parts of fwbackend.go, fwdeadman.go and fwrules.go: the firewall
-- rules, what they decide, and the changes that the bot plans on them.
pub mod Rules
pub mod Rows
pub mod Ports
pub mod Specs
pub mod Labels
pub mod Simulate
pub mod Plan
pub mod Guard
pub mod Pending
pub mod SshPorts
pub mod Sources
pub mod SshPlan
pub mod Listed
pub mod Flow
mod Examples
pub mod Shown
pub mod Trial
pub mod Ufw
