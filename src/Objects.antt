-- ===== src/Objects.antt =====
-- The object system: core/gameobject, core/component, core/gameobjectmanager, core/objhandle,
-- core/cmpmsgs and core/classids.
pub mod State
pub mod Handles
pub mod Manager
pub mod Messages
pub mod Members
pub mod Steps
pub mod Components
pub mod Write
pub mod Parse
pub mod Link
pub mod Deserialize
pub mod Stored
pub mod RoundTrip
pub mod Dump
pub mod Loading
pub mod Linking
