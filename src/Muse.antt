-- ===== src/Muse.antt =====
-- muse/src: the memory server.
pub mod State
pub mod Clock
pub mod Paginacion
pub mod Intercambio
pub mod Retorno
pub mod Segmentos
pub mod Acceso
pub mod Cierre
pub mod Metadata
pub mod Reserva
pub mod Alloc
pub mod Merge
pub mod Frames
pub mod Teselado
pub mod Quietud
pub mod Segmentacion
pub mod Ocupacion
pub mod Alojamiento
pub mod Llenado
pub mod Inicio
pub mod Mapa
pub mod Mapeos
pub mod Mapeadas
pub mod Cargado
pub mod Copia
pub mod Sincronia
pub mod Servidor
pub mod Atencion
pub mod Sesion
pub mod Libmuse
pub mod Remota
pub mod Vacio
pub mod Cuenta
pub mod Numeros
pub mod Liberacion
pub mod Clausura
pub mod Lectura
pub mod Ronda
mod Tests
pub mod AllocTests
pub mod RemotaTests
mod MapaTests
