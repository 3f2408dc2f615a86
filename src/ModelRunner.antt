-- ===== src/ModelRunner.antt =====
-- `ModelRunner` of sglang_mlx/model_runner.py: prefill, decode, the end of a request, and
-- `generate`.
pub mod State
pub mod Prefill
pub mod Decode
pub mod Generate
pub mod Load
pub mod Ready
pub mod PlanLaws
pub mod PrefillLaws
pub mod DecodeLaws
pub mod GenerateLaws
pub mod Enough
pub mod Slots
pub mod Lost
pub mod Interleaved
pub mod Pool
pub mod Guarded
pub mod Turns
pub mod Evicting
pub mod Generates
pub mod Shared
pub mod Reclaim
pub mod Samples
