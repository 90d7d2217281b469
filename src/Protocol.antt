-- ===== src/Protocol.antt =====
-- shared/shared/protocol.c: the messages between the servers and their clients.
pub mod Words
pub mod Head
pub mod Mensaje
pub mod Framing
pub mod Conexion
pub mod Consumo
mod Tests
