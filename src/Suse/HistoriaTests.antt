-- ===== src/Suse/HistoriaTests.antt =====
-- Histories of turns on the small run, and the same over a connection.
use tp_2019_2c_vendo_fiat.Suse.Hilolay.{
  Llamada, Manda, mandar_todo, pedido_de, handler-llamadas, suse_create, suse_schedule_next,
  suse_wait, suse_signal, suse_join, suse_close,
}
use tp_2019_2c_vendo_fiat.Suse.Historia.{
  Evento, Sano, historia, conectar, historia-Sano_inicio, solicitar,
}
use tp_2019_2c_vendo_fiat.Suse.Inicio.{ConfigSemaforos, iniciar, cargar_semaforos, cargar_semaforo}
use tp_2019_2c_vendo_fiat.Base.Int.{negsuc, ℤ, pos}
use tp_2019_2c_vendo_fiat.Protocol.Conexion.{conexion}
use tp_2019_2c_vendo_fiat.Suse.Turnos.{senales, Despertados, correr-Despertados}
use tp_2019_2c_vendo_fiat.Suse.Calls.{
  correr, crear_programa, create, schedule_next, wait, signal, close, Pedido,
}
use tp_2019_2c_vendo_fiat.Suse.Tests.{
  enteros, config, inicio, semaforo_a, enteros-IsTotal, hilo_vacio,
}
use tp_2019_2c_vendo_fiat.Suse.Servidor.{handler}
use tp_2019_2c_vendo_fiat.Suse.Ops.{buscar_semaforo}
use tp_2019_2c_vendo_fiat.Suse.State.{Suse}
use tp_2019_2c_vendo_fiat.Base.{
  List, SiHay, All, find_index, ℕ, ◌∷◌, ◌≡◌, [], arith, some, refl, option_case, map,
}
use tp_2019_2c_vendo_fiat.Protocol.Framing.{enviados}
use Prim.Native.String.{String}

abbrev de_a_uno : ConfigSemaforos
de_a_uno = record { sem_ids = "A" ∷ []; sem_init_value = "1" ∷ []; sem_max = "1" ∷ [] }

-- Every number is 1.
abbrev siempre_uno : String → ℤ
siempre_uno texto = pos 1

abbrev del_inicio : Suse ℕ
del_inicio = option_case (iniciar siempre_uno de_a_uno 1 (λ h. hilo_vacio)) inicio (λ s. s)

abbrev eventos : List Evento
eventos =
    conectar 7
    ∷ solicitar 0 (create 0)
    ∷ solicitar 0 (create 1)
    ∷ conectar 8
    ∷ solicitar 1 (create 0)
    ∷ solicitar 0 (schedule_next 5)
    ∷ solicitar 0 (wait 0 (some "A"))
    ∷ solicitar 1 (schedule_next 2)
    ∷ solicitar 0 (wait 1 (some "A"))
    ∷ solicitar 0 (signal (some "A"))
    ∷ solicitar 0 (close 1)
    ∷ []

inicia : iniciar siempre_uno de_a_uno 1 (λ h. hilo_vacio) ≡ some del_inicio
unfolding iniciar cargar_semaforos cargar_semaforo
inicia = refl

historia-Sano_inicio_example :
    SiHay (Sano enteros config) (historia enteros config eventos del_inicio)
historia-Sano_inicio_example =
    historia-Sano_inicio enteros config siempre_uno de_a_uno 1 (λ h. hilo_vacio) eventos del_inicio
      (λ i inicial maximo e f. (omega arith, omega arith)) inicia

-- Two threads wait.
abbrev esperan : Suse ℕ
esperan = record inicio {
  lista_semaforos = record semaforo_a { valor = negsuc 1; cola_bloqueo = 4 ∷ 2 ∷ [] } ∷ [];
}

esta_a : buscar_semaforo "A" esperan ≡ some 0
unfolding buscar_semaforo find_index
esta_a = refl

correr-Despertados_example :
    (t : Suse ℕ) × (correr enteros config (senales enteros "A" (0 ∷ 5 ∷ [])) esperan ≡ some t)
    × Despertados enteros 2 0 (4 ∷ 2 ∷ []) t
correr-Despertados_example =
    correr-Despertados enteros enteros-IsTotal config "A" (0 ∷ 5 ∷ []) 0
      (record semaforo_a { valor = negsuc 1; cola_bloqueo = 4 ∷ 2 ∷ [] }) esperan esta_a refl

-- Every name is "A".
abbrev siempre_a : List ℕ → String
siempre_a bytes = "A"

abbrev llamadas : List Llamada
llamadas =
    suse_create 0
    ∷ suse_schedule_next 5
    ∷ suse_wait 0 (65 ∷ [])
    ∷ suse_signal 0 (65 ∷ [])
    ∷ suse_join 0
    ∷ suse_close 0
    ∷ []

llamadas-Manda : All Manda llamadas
llamadas-Manda = (
  omega arith,
  (
    omega arith,
    (
      (omega arith, omega arith, (refl, tt)),
      ((omega arith, omega arith, (refl, tt)), (omega arith, (omega arith, tt))),
    ),
  ),
)

handler-llamadas_example :
    handler siempre_a enteros config 13 7 (conexion 11 (enviados (mandar_todo llamadas))) inicio
    ≡ correr enteros config
        (map {B = ℕ × Pedido} (λ l. (1, pedido_de siempre_a l)) llamadas)
        (crear_programa 7 inicio)
handler-llamadas_example =
    handler-llamadas siempre_a enteros config 13 llamadas 11 7 inicio (omega arith) llamadas-Manda
