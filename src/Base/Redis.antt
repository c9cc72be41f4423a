-- ===== src/Base/Redis.antt =====
-- Redis as the repositories use it: a parameter of the model, one interface for each kind of value.
-- A store is one Redis database; each command is a function of the store, and the laws say what
-- the documentation of the command says of later reads. A key may disappear when its time to live
-- is over: that is no command, and where it matters it is an event of the model that uses it.
pub mod Hash
pub mod Strings
pub mod Sets
pub mod Texts
