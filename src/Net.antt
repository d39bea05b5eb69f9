-- ===== src/Net.antt =====
-- torrent/net: socket addresses, as socket_address.h and socket_address.cc make, copy, convert,
-- classify and compare them.
pub mod ByteOrder
pub mod Address
pub mod Make
pub mod Compare
pub mod Mapped
pub mod Order
pub mod Lookup
pub mod Numeric
pub mod Text
pub mod Pointers
pub mod Union
mod Tests
