-- ===== src/Suse.antt =====
-- suse/src/suse.c: the thread scheduler.
pub mod State
pub mod Ops
pub mod Calls
pub mod Servidor
pub mod Sesion
pub mod Hilolay
pub mod Frame
pub mod Planificacion
pub mod Carga
pub mod Carrera
pub mod Semaforos
pub mod Inicio
pub mod Propiedad
pub mod Llamadas
pub mod Pertenencia
pub mod Historia
pub mod Despertar
pub mod Turnos
pub mod Tests
mod HistoriaTests
