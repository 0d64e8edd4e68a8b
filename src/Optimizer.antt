-- ===== src/Optimizer.antt =====
-- src/mir_optimizer.cpp: the passes over one function, and `MIROptimizer::run`.
pub mod Reachable
pub mod Dead
pub mod Numbers
pub mod Fold
pub mod Forward
pub mod Run
mod Tests
