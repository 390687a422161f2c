-- ===== src/Go.antt =====
-- What the program uses of Go and its standard library: errors, calls that return an error,
-- strconv, hash/fnv, and floating point and errgroup as interfaces.
pub mod Errors
pub mod Effect
pub mod Strconv
pub mod Fnv
pub mod Float
pub mod Group
