-- ===== src/Js.antt =====
-- What the program uses of the language: trimming, decimal text, JSON values, exceptions.
pub mod Trim
pub mod Number
pub mod Json
pub mod Result
