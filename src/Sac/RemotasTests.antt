-- ===== src/Sac/RemotasTests.antt =====
-- The callbacks of the client on the image of one file.
use tp_2019_2c_vendo_fiat.Sac.Escrituras.{do_write-sac_write, resultado_write}
use tp_2019_2c_vendo_fiat.Sac.Cambios.{do_trucate-sac_truncate, do_rename-sac_rename}
use tp_2019_2c_vendo_fiat.Sac.Remotas.{
  do_read-sac_read, en_cliente, en_servidor, en_cliente-en_servidor, borra_directorio,
}
use tp_2019_2c_vendo_fiat.Sac.Nodes.{
  free_blocks, get_position, contar_libres, get_name, get_directory, sin_barra, is_last_char,
  search_node, search_node_fuel, buscar_en, es_nodo,
}
use tp_2019_2c_vendo_fiat.Sac.Remoto.{servidor}
use tp_2019_2c_vendo_fiat.Base.Int.{pos, negsuc}
use tp_2019_2c_vendo_fiat.Sac.Operations.{es_entrada, sac_rmdir, sac_rename}
use tp_2019_2c_vendo_fiat.Sac.Listado.{nombres_de, NombreCorto, do_readdir-nombres_de}
use tp_2019_2c_vendo_fiat.Sac.Datos.{
  sac_read, sac_truncate, sac_write, escribir_nodo, leer_nodo, truncar_nodo, agrandar,
  asegurar_puntero, leer_bytes, escribir_en,
}
use tp_2019_2c_vendo_fiat.Sac.Cliente.{do_read, do_readdir, do_trucate, do_write, do_rename}
use tp_2019_2c_vendo_fiat.Sac.Wire.{codigo}
use tp_2019_2c_vendo_fiat.Sac.State.{
  Sac, set_node, t_deleted, leer_ptr, ok, contenido, error, enospc,
}
use tp_2019_2c_vendo_fiat.Base.{
  List, arith, option_case, ℕ, All, Option, any, refl, ◌∷◌, ◌≡◌, [], some, find_index, bytes_eq,
}
use tp_2019_2c_vendo_fiat.Sac.Llamadas.{PathBueno}
use tp_2019_2c_vendo_fiat.Sac.Tests.{imagen, partes, ruta, hallada, archivo}

pub buena : PathBueno ruta
buena = record { sin_nul = (refl, (refl, tt)); corto = omega arith }

abbrev red : List ℕ → Sac → Option (List ℕ × Sac)
red = servidor partes 9 0 0 5 11

abbrev imagen_borrada : Sac
imagen_borrada = set_node 0 (record archivo { status = t_deleted; file_name = [] }) imagen

borra : sac_rmdir partes ruta imagen ≡ some (ok ∷ [], imagen_borrada)
unfolding sac_rmdir any es_entrada
borra = rw hallada refl

en_cliente-en_servidor_example :
    en_cliente partes 9 0 0 5 11 borra_directorio (pos 0) ruta imagen ≡ some (pos 0, imagen_borrada)
en_cliente-en_servidor_example =
    en_cliente-en_servidor partes 9 0 0 5 11 borra_directorio ruta imagen ok (pos 0) imagen_borrada
      0 buena (unfold en_servidor in borra) refl

lee : sac_read partes ruta 3 0 imagen ≡ some (contenido (0 ∷ 0 ∷ 0 ∷ []) ∷ [], imagen)
unfolding sac_read leer_nodo leer_bytes get_position leer_ptr
lee = rw hallada refl

do_read-sac_read_example :
    do_read red 11 (pos 0) ruta 3 0 imagen ≡ some (pos 3, 0 ∷ 0 ∷ 0 ∷ [], imagen)
do_read-sac_read_example =
    do_read-sac_read partes 9 0 0 5 11 ruta 3 0 imagen (0 ∷ 0 ∷ 0 ∷ []) imagen 0 buena (omega arith)
      (omega arith) (omega arith) lee

abbrev imagen_escrita : Sac
imagen_escrita = option_case (escribir_nodo 9 0 (1 ∷ 2 ∷ 3 ∷ []) 3 0 imagen) imagen (λ q. q.1)

escribe : sac_write partes 9 ruta (1 ∷ 2 ∷ 3 ∷ []) 3 0 imagen ≡ some (ok ∷ [], imagen_escrita)
unfolding sac_write escribir_nodo asegurar_puntero escribir_en get_position leer_ptr
escribe = rw hallada refl

do_write-sac_write_example :
    do_write red 11 (pos 0) ruta (1 ∷ 2 ∷ 3 ∷ []) 0 imagen
    ≡ some (resultado_write (pos 0) 3, imagen_escrita)
do_write-sac_write_example =
    do_write-sac_write partes 9 0 0 5 11 ruta (1 ∷ 2 ∷ 3 ∷ []) 0 imagen ok (pos 0) imagen_escrita 0
      buena (omega arith) (omega arith) escribe refl

-- The file cannot grow inside its last block.
trunca : sac_truncate partes 0 ruta 200 imagen ≡ some (error enospc ∷ [], imagen)
unfolding sac_truncate truncar_nodo agrandar free_blocks contar_libres
trunca = rw hallada refl

do_trucate-sac_truncate_example : do_trucate red 11 (pos 0) ruta 200 imagen ≡ some (pos 0, imagen)
unfolding codigo
do_trucate-sac_truncate_example =
    do_trucate-sac_truncate partes 9 0 0 5 11 ruta 200 imagen (error enospc) (negsuc 27) imagen 0
      buena (omega arith) trunca refl

listado : All NombreCorto (nombres_de 1 imagen.nodes_table)
unfolding nombres_de es_entrada
listado = tt

do_readdir-nombres_de_example :
    do_readdir red 11 (pos 0) ruta imagen
    ≡ some (pos 0, (b'.' ∷ []) ∷ (b'.' ∷ b'.' ∷ []) ∷ nombres_de 1 imagen.nodes_table, imagen)
do_readdir-nombres_de_example =
    do_readdir-nombres_de partes 9 0 0 5 11 ruta imagen 1 0 buena hallada listado

abbrev imagen_renombrada : Sac
imagen_renombrada =
    set_node 0 (record archivo { file_name = b'a' ∷ []; modification_date = 9; root = 0 }) imagen

renombra : sac_rename partes 9 ruta ruta imagen ≡ some (ok ∷ [], imagen_renombrada)
unfolding sac_rename get_name get_directory sin_barra is_last_char search_node search_node_fuel
    buscar_en es_nodo find_index bytes_eq
renombra = refl

do_rename-sac_rename_example :
    do_rename red 11 (pos 0) (0 ∷ []) ruta ruta imagen ≡ some (pos 0, imagen_renombrada)
do_rename-sac_rename_example =
    do_rename-sac_rename partes 9 0 0 5 11 (0 ∷ []) ruta ruta imagen ok (pos 0) imagen_renombrada 0
      buena buena (omega arith) renombra refl
