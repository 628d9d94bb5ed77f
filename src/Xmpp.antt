-- ===== src/Xmpp.antt =====
-- The XMPP engine, talk/xmpp: the session of a client with a server.
pub mod Names
pub mod RosterNames
pub mod Presence
pub mod Contact
pub mod Roster
pub mod RosterRequests
pub mod State
pub mod Output
pub mod LoginStanzas
pub mod Login
pub mod Sasl
pub mod Send
pub mod Iq
pub mod Engine
pub mod Session
pub mod Stanzas
