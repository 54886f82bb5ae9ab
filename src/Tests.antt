-- ===== src/Tests.antt =====
-- Concrete inputs for the theorems: a codec and a cipher that are lawful, small stores, and the
-- theorems applied to them.
pub mod Codec
pub mod Inputs
pub mod StoreExamples
pub mod Examples
pub mod FormatExamples
pub mod StateExamples
pub mod NameExamples
pub mod Mailbox
pub mod HandlerExamples
pub mod KeyExamples
pub mod PageExamples
