-- ===== src/ByteArray.antt =====
-- sylar/bytearray.h, sylar/bytearray.cc and sylar/endian.h: a chain of equal memory blocks that is
-- written and read like a file, and the integer and string formats on top of it.
pub mod State
pub mod Buffer
pub mod Blocks
pub mod Cursor
pub mod WriteLoop
pub mod ReadLoop
pub mod Valid
pub mod Capacity
pub mod Access
pub mod Moves
pub mod Seek
pub mod Stream
pub mod Words
pub mod WordLaws
pub mod Codec
pub mod RoundTrip
pub mod Fixed
pub mod Iovecs
pub mod Gather
pub mod Varint
pub mod Integers
pub mod Strings
pub mod Tests
