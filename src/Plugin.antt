-- ===== src/Plugin.antt =====
-- The host of plugins, internal/plugin: the versions that a plugin asks for, the hooks around the
-- HTTP handler and the writers that they put in front of the client.
pub mod Version
pub mod Order
pub mod Client
pub mod Buffer
pub mod Matcher
pub mod Hooks
pub mod Inject
pub mod HtmlWriter
mod Tests
mod HookTests
mod InjectTests
