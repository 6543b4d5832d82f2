-- ===== src/Go.antt =====
-- What the program uses of Go's standard library: strconv.ParseInt, anchored regular expressions
-- of literals and `(\d+)`, strings.TrimSpace, and the writers of net/http.
pub mod FormatInt
pub mod ParseInt
pub mod Pattern
pub mod Trim
pub mod Writer
