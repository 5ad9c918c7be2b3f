-- ===== src/Cameras.antt =====
-- hub/src/cameras: the live frames, the tickets and the viewers of each camera.
pub mod FrameStore
pub mod Jpeg
pub mod StoreLaws
pub mod Browser
pub mod BrowserLaws
