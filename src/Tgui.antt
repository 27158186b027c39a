-- ===== src/Tgui.antt =====
-- internal/tgui: the callback format, the registry of screens and actions, and the confirm tokens.
pub mod Codec
pub mod Tokens
pub mod Screens
pub mod Registry
pub mod Legacy
mod Examples
