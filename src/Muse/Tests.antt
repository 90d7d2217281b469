-- ===== src/Muse/Tests.antt =====
-- The clock and the swap area on two frames and two places.
use tp_2019_2c_vendo_fiat.Muse.Ronda.{muse_cpy-muse_get, Residente}
use tp_2019_2c_vendo_fiat.Muse.Segmentos.{
  obtener_lista_segmentos_por_id, buscar_programa, obtener_segmento_por_direccion, buscar_segmento,
}
use tp_2019_2c_vendo_fiat.Muse.Clausura.{Cerrado, muse_close-Cerrado}
use tp_2019_2c_vendo_fiat.Muse.Acceso.{cero, muse_cpy, muse_get, leido, es_destino}
use tp_2019_2c_vendo_fiat.Muse.Cierre.{muse_close}
use Prim.Native.String.{String}
use text.Mathlib.Text.{◌==◌ as str_eq}
use tp_2019_2c_vendo_fiat.Muse.Clock.Victima.{buscar_victima-Acierto00, buscar_victima-EsVictima}
use tp_2019_2c_vendo_fiat.Muse.Clock.Casos.{Acierto00, EsVictima}
use tp_2019_2c_vendo_fiat.Muse.Retorno.{Leida, ida_y_vuelta}
use tp_2019_2c_vendo_fiat.Muse.Paginacion.{
  desalojar_pagina, obtener_puntero_a_marco, pasar_a_swap, buscar_bit_libre_swap, dejar_marco,
  copiar_a_swap,
}
use tp_2019_2c_vendo_fiat.Muse.Intercambio.{pasar_a_swap-EnSwap, SwapLleno, EnSwap}
use tp_2019_2c_vendo_fiat.Muse.Clock.{es_0_0, buscar_victima}
use tp_2019_2c_vendo_fiat.Base.{
  ℕ, option_case, true, ◌+◌, ◌∷◌, ◌≡◌, [], false, some, none, refl, arith, find_index, ◌⊎◌, Bool,
  find,
}
use tp_2019_2c_vendo_fiat.Muse.State.{
  BitMemoria, Muse, Programa, BitSwap, Pagina, InfoHeap, Segmento,
}

abbrev usado : BitMemoria
usado = record { esta_ocupado = true; pos = 0; bit_uso = true; bit_modificado = true }

abbrev sin_uso : BitMemoria
sin_uso = record { esta_ocupado = true; pos = 1; bit_uso = false; bit_modificado = false }

abbrev lugar : ℕ → BitSwap
lugar p = record { esta_ocupado = false; pos = p }

abbrev pagina : ℕ → Pagina
pagina q = record { num_pagina = q; presencia = true; bit_marco = some q; bit_swap = none }

abbrev programa : Programa
programa = record {
  id = "p";
  segmentos =
      (record {
        num_segmento = 0;
        base_logica = 0;
        tamanio = 8;
        paginas = 0 ∷ 1 ∷ [];
        status_metadata = [];
        es_mmap = false;
        compartido = false;
        path_mapeo = "";
        tamanio_mapeo = 0;
      })
      ∷ [];
}

abbrev lleno : Muse
lleno = record {
  tamanio_pagina = 4;
  memoria = λ a. a + 10;
  area_swap = λ a. 0;
  bits_memoria = usado ∷ record usado { pos = 1 } ∷ [];
  bits_memoria_virtual = lugar 0 ∷ lugar 1 ∷ [];
  puntero_clock = 0;
  espacio_disponible = 16;
  paginas = pagina;
  next_pagina = 2;
  lista_programas = programa ∷ [];
  lista_mapeos = [];
}

-- Page 1 has gone to the first place.
abbrev sin_pagina_1 : Muse
sin_pagina_1 = option_case (desalojar_pagina 1 1 lleno) lleno (λ t. t)

buscar_victima-EsVictima_example :
    (q : ℕ) × EsVictima (usado ∷ usado ∷ []) (buscar_victima (usado ∷ usado ∷ []) 1) q
buscar_victima-EsVictima_example =
    buscar_victima-EsVictima (usado ∷ usado ∷ []) 1 (omega arith) (omega arith)

buscar_victima-Acierto00_example :
    (q : ℕ) × Acierto00 (usado ∷ sin_uso ∷ []) 0 (buscar_victima (usado ∷ sin_uso ∷ []) 0) q
unfolding es_0_0
buscar_victima-Acierto00_example =
    buscar_victima-Acierto00 (usado ∷ sin_uso ∷ []) 0 1 (omega arith) (omega arith) refl

pasar_a_swap-EnSwap_example :
    ((pasar_a_swap 1 lleno ≡ none) × SwapLleno lleno)
    ⊎ ((b : ℕ) × (t : Muse) × (pasar_a_swap 1 lleno ≡ some (b, t)) × EnSwap 1 lleno b t)
pasar_a_swap-EnSwap_example = pasar_a_swap-EnSwap 1 lleno

sale : desalojar_pagina 1 1 lleno ≡ some sin_pagina_1
unfolding desalojar_pagina pasar_a_swap buscar_bit_libre_swap find_index dejar_marco copiar_a_swap
sale = refl

ida_y_vuelta_example :
    Leida 1 4 (λ k. lleno.memoria (4 + k)) (obtener_puntero_a_marco 1 sin_pagina_1)
ida_y_vuelta_example = ida_y_vuelta 1 1 1 lleno sin_pagina_1 refl sale

abbrev iguales : String → String → Bool
iguales a b = str_eq a b

se_halla : find (λ p. iguales p.id "p") lleno.lista_programas ≡ some programa
unfolding find
se_halla = refl

muse_close-Cerrado_example :
    ((muse_close iguales "p" lleno).0 ≡ cero)
    × Cerrado iguales programa lleno (muse_close iguales "p" lleno).1
muse_close-Cerrado_example = muse_close-Cerrado iguales "p" lleno programa se_halla

abbrev heap_ocupado : InfoHeap
heap_ocupado = record { direccion_heap = 0; espacio = 3; libre = false; indice = 0 }

abbrev segmento_heap : Segmento
segmento_heap = record {
  num_segmento = 0;
  base_logica = 0;
  tamanio = 8;
  paginas = 0 ∷ 1 ∷ [];
  status_metadata = heap_ocupado ∷ [];
  es_mmap = false;
  compartido = false;
  path_mapeo = "";
  tamanio_mapeo = 0;
}

abbrev con_heap : Muse
con_heap = record lleno {
  lista_programas = record programa { segmentos = segmento_heap ∷ [] } ∷ [];
}

-- The direction 5 is in page 1.
residente : Residente iguales "p" 5 (7 ∷ 8 ∷ []) con_heap segmento_heap 5 1 1
unfolding obtener_lista_segmentos_por_id buscar_programa obtener_segmento_por_direccion
    buscar_segmento es_destino find find_index
residente = record {
  segmentos = segmento_heap ∷ [];
  indice = 0;
  de_programa = refl;
  de_segmento = refl;
  segmento = refl;
  direccion = refl;
  propio = refl;
  heap = heap_ocupado;
  destino = refl;
  pagina = refl;
  presente = refl;
  marco = refl;
  bit = record usado { pos = 1 };
  en_bitmap = refl;
  hay = omega arith;
  cabe = omega arith;
  dentro = refl;
}

muse_cpy-muse_get_example :
    (t : Muse) × (u : Muse) × (muse_cpy iguales (λ p n k. 0) "p" 5 (7 ∷ 8 ∷ []) con_heap
      ≡ some (cero, t))
    × (muse_get iguales (λ p n k. 0) "p" 5 2 t ≡ some (leido (7 ∷ 8 ∷ []), u))
muse_cpy-muse_get_example =
    muse_cpy-muse_get iguales (λ p n k. 0) "p" 5 (7 ∷ 8 ∷ []) con_heap segmento_heap 5 1 1 residente
