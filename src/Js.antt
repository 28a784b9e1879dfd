-- ===== src/Js.antt =====
-- What the scripts use of the JavaScript language: strings, integers, and dynamic values.
pub mod Int
pub mod Text
pub mod Value
pub mod Thousandths
