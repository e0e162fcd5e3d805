-- ===== src/XProcessor.antt =====
-- The evaluation context of the processor: src/xprocessor/env.cpp and env.hpp.
pub mod Env
pub mod Scope
pub mod Binding
mod Tests
