-- ===== src/Muse/AllocTests.antt =====
-- `muse_alloc` on a program with a segment of one page.
use tp_2019_2c_vendo_fiat.Muse.State.{Maquina}
use tp_2019_2c_vendo_fiat.Muse.Numeros.{NumeradoEn, muse_free-Numerado}
use tp_2019_2c_vendo_fiat.Muse.Merge.{
  muse_free, empieza_en, liberar_heap, merge, merge_loop, vuelta_merge, numerar,
}
use tp_2019_2c_vendo_fiat.Muse.Clock.{buscar_bit_libre_memoria, esta_libre}
use tp_2019_2c_vendo_fiat.Muse.Paginacion.{
  obtener_puntero_a_marco, asegurar_presencia, puntero_de, marcar_uso,
}
use tp_2019_2c_vendo_fiat.Muse.Paginacion.{asignar_marco_nuevo}
use tp_2019_2c_vendo_fiat.Muse.Reserva.{crear_pagina}
use tp_2019_2c_vendo_fiat.Muse.Frames.{FloatBueno, Justos, calcular_frames_necesarios-Justos}
use tp_2019_2c_vendo_fiat.Muse.Metadata.{
  calcular_frames_necesarios, vueltas_frames, sustituir_heap_metadata, escribir_en_lista,
  escribir_en_pagina, escribir_cortado, queda_cortado,
}
use tp_2019_2c_vendo_fiat.Muse.Alloc.{
  muse_alloc, alloc_sin_lugar, agrandar_segmento, crecer_segmento, agregar_paginas, escribir_viejo,
}
use tp_2019_2c_vendo_fiat.Muse.Segmentos.{
  buscar_programa, obtener_segmento_para_ocupar, find_segmento_con_espacio, tiene_heap_disponible,
  techo, obtener_segmento_por_direccion, buscar_segmento,
}
use tp_2019_2c_vendo_fiat.Base.{
  Bool, ℕ, find_index, option_case, true, ◌∷◌, [], arith, false, ◌≡◌, any, some, none, refl, ltb,
  ◌*◌,
}
use tp_2019_2c_vendo_fiat.Muse.State.{BitMemoria, InfoHeap, Muse, Programa, Segmento}
use tp_2019_2c_vendo_fiat.Base.Int.{pos}
use Prim.Native.String.{String}
use text.Mathlib.Text.{◌==◌ as str_eq}

abbrev bit : BitMemoria
bit = record { esta_ocupado = true; pos = 0; bit_uso = true; bit_modificado = true }

abbrev bloque : InfoHeap
bloque = record { direccion_heap = 0; espacio = 27; libre = true; indice = 0 }

abbrev pub segmento : Segmento
segmento = record {
  num_segmento = 0;
  base_logica = 0;
  tamanio = 32;
  paginas = 0 ∷ [];
  status_metadata = bloque ∷ [];
  es_mmap = false;
  compartido = false;
  path_mapeo = "";
  tamanio_mapeo = 0;
}

abbrev pub programa_solo : Programa
programa_solo = record { id = "p"; segmentos = segmento ∷ [] }

abbrev pub estado : Muse
estado = record {
  tamanio_pagina = 32;
  memoria = λ a. 0;
  area_swap = λ a. 0;
  bits_memoria = bit ∷ record bit { esta_ocupado = false; pos = 1 } ∷ [];
  bits_memoria_virtual = [];
  puntero_clock = 0;
  espacio_disponible = 64;
  paginas = λ q. record { num_pagina = q; presencia = true; bit_marco = some q; bit_swap = none };
  next_pagina = 1;
  lista_programas = programa_solo ∷ [];
  lista_mapeos = [];
}

abbrev pub mismos : String → String → Bool
mismos a b = str_eq a b

-- Fresh memory is 0, floats are exact, and malloc finds less than 2^31 bytes.
abbrev pub ceros : Maquina
ceros = record {
  basura = λ k. 0;
  supera = λ tam t n. ltb (n * t) tam;
  hay_memoria = λ n. ltb n 2147483648;
}

ceros-FloatBueno : FloatBueno ceros
ceros-FloatBueno = record {
  exacto = λ tam t n p q chico. refl;
  doble = λ tam t n p q h. ground (arith, h);
}

-- The segment grows for 30 bytes.
abbrev pub reservado : ℕ → Muse
reservado n = option_case (muse_alloc ceros mismos "p" n estado) estado (λ r. r.1)

pub es_p : buscar_programa mismos "p" estado ≡ some 0
unfolding buscar_programa find_index
es_p = refl

pub se_reserva : muse_alloc ceros mismos "p" 30 estado ≡ some (pos 5, reservado 30)
unfolding muse_alloc buscar_programa obtener_segmento_para_ocupar find_segmento_con_espacio
    find_index any tiene_heap_disponible alloc_sin_lugar agrandar_segmento
    calcular_frames_necesarios vueltas_frames crecer_segmento agregar_paginas crear_pagina
    asignar_marco_nuevo buscar_bit_libre_memoria esta_libre sustituir_heap_metadata queda_cortado
    escribir_en_lista escribir_en_pagina escribir_cortado obtener_puntero_a_marco asegurar_presencia
    puntero_de marcar_uso escribir_viejo techo
se_reserva = refl

calcular_frames_necesarios-Justos_example :
    (n : ℕ) × (calcular_frames_necesarios ceros 32 100 ≡ some n) × Justos 32 100 n
calcular_frames_necesarios-Justos_example =
    calcular_frames_necesarios-Justos ceros ceros-FloatBueno 32 100 (omega arith) (omega arith)
      (omega arith)

-- Two blocks, the second one with a number that is not that of its place.
abbrev dos_bloques : Programa
dos_bloques = record programa_solo {
  segmentos =
      (record segmento {
        status_metadata =
            record { direccion_heap = 0; espacio = 10; libre = false; indice = 0 }
            ∷ record { direccion_heap = 15; espacio = 12; libre = false; indice = 7 }
            ∷ [];
      })
      ∷ [];
}

abbrev con_dos : Muse
con_dos = record estado { lista_programas = dos_bloques ∷ [] }

abbrev liberado : Muse
liberado = option_case (muse_free ceros mismos "p" 5 con_dos) con_dos (λ r. r.1)

se_libera : muse_free ceros mismos "p" 5 con_dos ≡ some (pos 0, liberado)
unfolding muse_free buscar_programa find_index obtener_segmento_por_direccion buscar_segmento
    empieza_en liberar_heap sustituir_heap_metadata escribir_en_lista escribir_en_pagina
    escribir_cortado obtener_puntero_a_marco asegurar_presencia puntero_de marcar_uso merge
    merge_loop vuelta_merge numerar queda_cortado
se_libera = refl

es_p_dos : buscar_programa mismos "p" con_dos ≡ some 0
unfolding buscar_programa find_index
es_p_dos = refl

en_segmento : obtener_segmento_por_direccion dos_bloques.segmentos 5 ≡ some 0
unfolding obtener_segmento_por_direccion buscar_segmento find_index
en_segmento = refl

muse_free-Numerado_example : NumeradoEn 0 0 liberado
muse_free-Numerado_example =
    muse_free-Numerado ceros mismos "p" 5 0 0 dos_bloques con_dos liberado es_p_dos refl en_segmento
      se_libera
