-- ===== src/Prov/LiveState.antt =====
-- pkg/resources/prov/livestate.go: what of a live object formae gets to see. A Go map that is changed
-- in place is a value that is returned changed. `project`, a parameter, is the round trip of the API
-- object through JSON and its apply configuration, whose types belong to client-go; it may fail.
pub mod Strip
pub mod Kinds
pub mod Walk
pub mod Build
pub mod Keeps
pub mod Absent
pub mod Clean
