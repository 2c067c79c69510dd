-- ===== src/Buffer.antt =====
-- include/async_frame/buffer.h: the three buffers, a module each, and the interface through which the
-- asynchronous operations use them.
pub mod StaticBuffer
pub mod DynamicBuffer
pub mod BufferView
pub mod Cursor
pub mod Filled
