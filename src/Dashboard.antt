-- ===== src/Dashboard.antt =====
-- dashboard/src: the rules that the dashboard computes itself.
pub mod Permissions
pub mod Mirror
pub mod Cluster
pub mod Clustered
pub mod ClusterRows
pub mod Stream
pub mod StreamSteps
pub mod StreamLive
pub mod StreamOnce
pub mod StreamReached
pub mod StreamStale
pub mod StreamKeys
pub mod Capture
pub mod CapturePace
pub mod CaptureDelay
pub mod CaptureSteps
pub mod CaptureStarts
pub mod CaptureLight
pub mod CaptureLoops
pub mod CaptureOnce
pub mod CaptureOff
pub mod CaptureAfter
pub mod AgentCommand
pub mod AgentCommandQuoted
pub mod AgentCommandValid
pub mod Mint
pub mod MintSlots
pub mod Api
pub mod ApiErrors
