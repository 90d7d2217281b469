-- ===== src/Sac/Tests.antt =====
-- The file system on an image of one file.
use tp_2019_2c_vendo_fiat.Sac.Directorios.{sac_rmdir-sac_readdir}
use tp_2019_2c_vendo_fiat.Sac.Crecimiento.{agrandar_dentro}
use tp_2019_2c_vendo_fiat.Sac.Bitmap.{Reservado, search_and_test_first_free_block-Reservado}
use tp_2019_2c_vendo_fiat.Sac.Operations.{enviar, sac_readdir, sac_rmdir}
use tp_2019_2c_vendo_fiat.Sac.Posicion.{DeInt, DeNegativo, get_position_bounds}
use tp_2019_2c_vendo_fiat.Sac.Datos.{escribir_nodo, agrandar, leer_nodo}
use tp_2019_2c_vendo_fiat.Sac.Lectura.{Puesto, escribir_nodo-leer_nodo}
use tp_2019_2c_vendo_fiat.Base.{
  find_index, true, ◌∷◌, ◌≡◌, [], arith, false, none, refl, if◌then◌else◌, ◌⊎◌, ℕ, ◌==◌, get_elem?,
  some, List, bytes_eq, option_case,
}
use tp_2019_2c_vendo_fiat.Sac.Asignacion.{Asignado, allocate_node-Asignado}
use tp_2019_2c_vendo_fiat.Sac.Nodes.{
  allocate_node, free_blocks, get_position, search_and_test_first_free_block, contar_libres,
  bloque_de_punteros, search_node, search_node_fuel, get_directory, sin_barra, is_last_char,
  get_name, buscar_en, es_nodo,
}
use tp_2019_2c_vendo_fiat.Sac.State.{
  Respuesta, GFile, Sac, leer_ptr, t_file, error, ok, enospc, contenido, set_node, t_deleted,
  dir_name, enotempty,
}

abbrev pub archivo : GFile
archivo = record {
  status = t_file;
  file_name = b'a' ∷ [];
  root = 0;
  size = 100;
  creation_date = 0;
  modification_date = 0;
  blocks_ptr = λ j. if j == 0 then 5 else 0;
}

-- Block 5 holds the pointer to block 6, block 7 is free.
abbrev pub imagen : Sac
imagen = record {
  bitmap = true ∷ true ∷ true ∷ true ∷ true ∷ true ∷ true ∷ false ∷ [];
  nodes_table = archivo ∷ [];
  blocks = λ b. λ k. if b == 5 then (if k == 0 then 6 else 0) else 0;
}

-- The file is as long as its one block, and the next one goes to the pointer 1.
abbrev archivo_lleno : GFile
archivo_lleno = record archivo { size = 4096 }

abbrev imagen_llena : Sac
imagen_llena = record imagen { nodes_table = archivo_lleno ∷ [] }

abbrev imagen_asignada : Sac
imagen_asignada = option_case (allocate_node 0 archivo_lleno imagen_llena) imagen_llena (λ r. r.1)

search_and_test_first_free_block-Reservado_example :
    ((search_and_test_first_free_block imagen ≡ (none, imagen)) × (free_blocks imagen ≡ 0))
    ⊎ ((i : ℕ) × (t : Sac) × (search_and_test_first_free_block imagen ≡ (some i, t))
        × Reservado imagen i t)
search_and_test_first_free_block-Reservado_example =
    search_and_test_first_free_block-Reservado imagen

get_position_bounds_example : DeInt 5000000 ⊎ DeNegativo 5000000
get_position_bounds_example = get_position_bounds 5000000 (omega arith)

asigna : allocate_node 0 archivo_lleno imagen_llena ≡ some (some 7, imagen_asignada)
unfolding allocate_node search_and_test_first_free_block find_index get_position bloque_de_punteros
asigna = refl

allocate_node-Asignado_example : Asignado 0 archivo_lleno imagen_llena 7 imagen_asignada
allocate_node-Asignado_example =
    allocate_node-Asignado 0 archivo_lleno imagen_llena 7 imagen_asignada refl (omega arith)
      (λ e. omega arith) asigna

agrandar_dentro_example : agrandar 9 0 200 imagen ≡ enviar (error enospc) imagen
unfolding free_blocks contar_libres
agrandar_dentro_example = agrandar_dentro 9 0 200 imagen (omega arith) (omega arith) (omega arith)

puesto : Puesto 0 archivo 5 6 0 imagen
unfolding get_position leer_ptr
puesto = record {
  en_tabla = refl;
  puntero = refl;
  bloque = refl;
  puntero_puesto = refl;
  bloque_puesto = refl;
  distintos = refl;
}

escribir_nodo-leer_nodo_example :
    (t : Sac) × (node' : GFile) × (escribir_nodo 9 0 (1 ∷ 2 ∷ 3 ∷ []) 3 0 imagen ≡ enviar ok t)
    × (get_elem? t.nodes_table 0 ≡ some node')
    × (leer_nodo node' 3 0 t ≡ enviar (contenido (1 ∷ 2 ∷ 3 ∷ [])) t)
escribir_nodo-leer_nodo_example =
    escribir_nodo-leer_nodo 9 0 archivo (1 ∷ 2 ∷ 3 ∷ []) 5 6 0 imagen puesto refl (omega arith)

-- A split that gives the name of the only path of the test.
abbrev pub partes : List ℕ → List (List ℕ)
partes path = (b'a' ∷ []) ∷ []

abbrev pub ruta : List ℕ
ruta = b'/' ∷ b'a' ∷ []

pub hallada : search_node partes ruta imagen ≡ some (some 1)
unfolding search_node search_node_fuel get_directory sin_barra is_last_char get_name buscar_en
    es_nodo find_index bytes_eq
hallada = refl

sac_rmdir-sac_readdir_example :
    ((sac_readdir partes ruta imagen ≡ enviar ok imagen)
      × (sac_rmdir partes ruta imagen
          ≡ enviar ok (set_node 0 (record archivo { status = t_deleted; file_name = [] }) imagen)))
    ⊎ ((name : List ℕ) × (rest : List Respuesta) × (sac_readdir partes ruta imagen
          ≡ some (dir_name name ∷ rest, imagen))
        × (sac_rmdir partes ruta imagen ≡ enviar (error enotempty) imagen))
sac_rmdir-sac_readdir_example = sac_rmdir-sac_readdir partes ruta imagen 0 archivo hallada refl
