-- ===== src/Sac.antt =====
-- SAC-server/src: the file system server.
pub mod State
pub mod Nodes
pub mod Bloques
pub mod Operations
pub mod Datos
pub mod Bitmap
pub mod Posicion
pub mod Crecimiento
pub mod Asignacion
pub mod Lectura
pub mod Directorios
pub mod Wire
pub mod Cliente
pub mod Campos
pub mod Remoto
pub mod Sesion
pub mod Atributos
pub mod Llamadas
pub mod Remotas
pub mod Escrituras
pub mod Cambios
pub mod Listado
pub mod Tests
pub mod RemotasTests
mod SesionTests
