-- ===== src/Gstreamer.antt =====
-- internal/gstreamer-src and internal/gstreamer-sink: the Go side of the GStreamer pipelines.
pub mod Source
pub mod Sink
pub mod Codecs
