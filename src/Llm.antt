-- ===== src/Llm.antt =====
-- offboarding/llm: how a plan is asked for.
pub mod Provider
pub mod Plans
pub mod Fake
pub mod Gemini
pub mod Factory
pub mod Covering
pub mod Isolation
