-- ===== src/Sync.antt =====
-- packages/canvas-sync/src: the side of the browser, between the canvas and the shared document.
pub mod EmitLocal
pub mod Transport
