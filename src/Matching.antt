-- ===== src/Matching.antt =====
-- internal/domain/service/matching_service.go with its limits (matching_limits.go): which
-- combinations of unreimbursed expenses add up to a target.
-- `Score` holds results and their order, `Search` the depth-first search and `Service` what is
-- done before and after it.
pub mod Score
pub mod Search
pub mod Subsequences
pub mod Soundness
pub mod Growth
pub mod Progress
pub mod Completeness
pub mod Service
mod Tests
