-- ===== src/Py.antt =====
-- What the source uses of Python's own text, of `dict` and of values decoded from JSON.
pub mod Text
pub mod Json
pub mod Slices
pub mod Clock
pub mod Number
pub mod Result
