-- ===== src/Dml.antt =====
-- DirectML execution: what the sources under src/dml keep of the queue, the heaps and the
-- descriptors. The GPU is a fence: the value that it has completed is an argument.
pub mod Fence
pub mod Rising
pub mod Upload
pub mod Readback
pub mod Queue
pub mod Descriptors
