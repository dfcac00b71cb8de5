-- ===== src/Python.antt =====
-- What the program uses of Python itself: text methods, JSON values, dictionaries, exceptions.
pub mod Text
pub mod Result
pub mod Exec
pub mod Json
pub mod Dict
pub mod Set
