-- ===== src/Examples.antt =====
-- Tests of the definitions on concrete inputs, and instances of the theorems.
mod Cipher
mod Crypto
mod Frame
mod Json
mod Media
mod Runtime
mod Session
