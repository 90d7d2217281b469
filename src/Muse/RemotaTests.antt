-- ===== src/Muse/RemotaTests.antt =====
-- Calls of libmuse on the state of one segment.
use tp_2019_2c_vendo_fiat.Muse.Paginacion.{
  obtener_puntero_a_marco, asegurar_presencia, puntero_de, marcar_uso,
}
use tp_2019_2c_vendo_fiat.Muse.Remota.{libmuse_alloc-muse_alloc, libmuse_get-muse_get}
use tp_2019_2c_vendo_fiat.Muse.Libmuse.{libmuse_alloc, libmuse_cpy, libmuse_get}
use tp_2019_2c_vendo_fiat.Muse.Servidor.{
  buffer_de_get, turno_de, atender_alloc, atender_cpy, atender_get,
}
use tp_2019_2c_vendo_fiat.Muse.Segmentos.{
  obtener_lista_segmentos_por_id, buscar_programa, obtener_segmento_por_direccion, buscar_segmento,
  techo,
}
use tp_2019_2c_vendo_fiat.Muse.State.{Muse}
use tp_2019_2c_vendo_fiat.Base.{ℕ, option_case, find_index, ◌∷◌, ◌≡◌, [], some, none, arith, refl}
use tp_2019_2c_vendo_fiat.Protocol.Head
use tp_2019_2c_vendo_fiat.Muse.Cuenta.{libmuse_cpy_falla}
use Prim.Native.String.{String}
use tp_2019_2c_vendo_fiat.Base.Int.{pos}
use tp_2019_2c_vendo_fiat.Muse.Acceso.{muse_get, leido, cargar_mapa, leer_paginas, bytes_desde}
use tp_2019_2c_vendo_fiat.Muse.AllocTests.{estado, mismos, ceros, reservado, se_reserva}

abbrev pub nada_leido : String → ℕ → ℕ → ℕ
nada_leido p n k = 0

abbrev leyendo : Muse
leyendo = option_case (muse_get mismos nada_leido "p" 5 2 estado) estado (λ r. r.1)

se_lee : muse_get mismos nada_leido "p" 5 2 estado ≡ some (leido (0 ∷ 0 ∷ []), leyendo)
unfolding muse_get obtener_lista_segmentos_por_id buscar_programa find_index
    obtener_segmento_por_direccion buscar_segmento cargar_mapa leer_paginas obtener_puntero_a_marco
    asegurar_presencia puntero_de marcar_uso techo bytes_desde
se_lee = refl

libmuse_get-muse_get_example :
    libmuse_get (turno_de 11 Head.muse_get (atender_get ceros mismos nada_leido "p")) 11 5 2 estado
    ≡ some (pos 0, buffer_de_get ceros (leido (0 ∷ 0 ∷ [])) 2, leyendo)
unfolding buffer_de_get
libmuse_get-muse_get_example =
    libmuse_get-muse_get ceros mismos nada_leido 11 "p" 5 2 estado (leido (0 ∷ 0 ∷ [])) leyendo
      (omega arith) (omega arith) refl (omega arith) se_lee

libmuse_alloc-muse_alloc_example :
    libmuse_alloc
      (turno_de 11 Head.muse_alloc (atender_alloc ceros mismos nada_leido "p"))
      11
      30
      estado
    ≡ some (5, reservado 30)
libmuse_alloc-muse_alloc_example =
    libmuse_alloc-muse_alloc ceros mismos nada_leido 11 "p" 30 estado (pos 5) (reservado 30)
      (omega arith) (omega arith, omega arith) se_reserva

libmuse_cpy_falla_example :
    libmuse_cpy
      (turno_de 11 Head.muse_cpy (atender_cpy ceros mismos nada_leido "p"))
      11
      5
      (1 ∷ 2 ∷ 3 ∷ 4 ∷ [])
      estado
    ≡ none
libmuse_cpy_falla_example =
    libmuse_cpy_falla ceros mismos nada_leido 11 "p" 5 1 2 3 4 [] estado (omega arith) (omega arith)
