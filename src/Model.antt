-- ===== src/Model.antt =====
-- What the services share: the enumerations and entities of the database, the state of the back
-- end, and the actions on it.
pub mod Types
pub mod Entities
pub mod Action
pub mod Keeps
