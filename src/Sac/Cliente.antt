-- ===== src/Sac/Cliente.antt =====
-- SAC-cli/src/SAC-cli.c: the callbacks of FUSE. `red` stands for the connection: it takes the bytes
-- that a callback sends to the server and the image, and answers the bytes that come back and the
-- new image. `op_res` is what `send_message` answers: a negative one means that nothing reached the
-- server, and the callback connects again. Paths hold no NUL.
use tp_2019_2c_vendo_fiat.Protocol.Conexion.{pedir}
use tp_2019_2c_vendo_fiat.Protocol.Words.{bytes_le, word_le}
use tp_2019_2c_vendo_fiat.Sac.State.{Sac, t_dir}
use tp_2019_2c_vendo_fiat.Protocol.Mensaje.{
  TMessage, Socket, recv_message, send_message, get_status,
}
use tp_2019_2c_vendo_fiat.Base.Int.{ℤ, negsuc, ltb_ℤ, pos}
use tp_2019_2c_vendo_fiat.Base.{
  Bool, List, ℕ, Option, bytes_eq, true, if◌then◌else◌, length, none, option_case, some, take, ◌++◌,
  drop, ltb, suc, [], ◌==◌, ◌^◌, ◌∷◌, zero, ◌+◌, ◌-◌,
}
use tp_2019_2c_vendo_fiat.Protocol.Head

-- The part of struct stat that `do_getattr` fills in; the access time is left out.
pub record Stat : Type 0 where
  pub es_dir : Bool
  pub nlink : ℕ
  pub size : ℕ
  pub mtim : ℕ
  pub ctim : ℕ

abbrev pub enametoolong : ℤ
enametoolong = negsuc 35

-- The contents that the callbacks send: a length and a path, and then fields of 8 bytes.
abbrev pub con_largo_de : List ℕ → List ℕ → List ℕ
con_largo_de path resto = bytes_le 8 (length path) ++ (path ++ resto)

unfoldable pub pedido_read : List ℕ → ℕ → ℕ → List ℕ
pedido_read path size off = con_largo_de path (bytes_le 8 size ++ bytes_le 8 off)

unfoldable pub pedido_utimens : List ℕ → ℕ → List ℕ
pedido_utimens path last_mod = con_largo_de path (bytes_le 8 last_mod)

unfoldable pub pedido_truncate : List ℕ → ℕ → List ℕ
pedido_truncate path offset = con_largo_de path (bytes_le 8 offset)

-- The buffer of `do_rename` has room for an off_t that is not written.
unfoldable pub pedido_rename : List ℕ → List ℕ → List ℕ → List ℕ
pedido_rename basura old_path new_path =
    con_largo_de old_path (bytes_le 8 (length new_path) ++ (new_path ++ basura))

-- What `do_getattr` reads of the attributes.
unfoldable pub leer_stat : List ℕ → Stat
leer_stat content =
    let status = word_le (take 1 (drop 20 content)) in
    record {
      es_dir = status == t_dir;
      nlink = word_le (take 4 (drop 21 content));
      size = if status == t_dir then 0 else word_le (take 4 content);
      mtim = word_le (take 8 (drop 12 content));
      ctim = word_le (take 8 (drop 4 content));
    }

abbrev pub stat_raiz : TMessage → Stat
stat_raiz m = record {
  es_dir = true;
  nlink = word_le (take 4 m.content);
  size = 0;
  mtim = 0;
  ctim = 0;
}

-- The messages DIR_NAME, and then the first other one; at most `fuel` of them.
unfoldable pub leer_nombres : ℕ → TMessage → Socket → Option (List (List ℕ) × TMessage)
leer_nombres zero m socket = none
leer_nombres (suc fuel) m socket =
    if m.head == Head.dir_name
    then option_case (recv_message socket) none
        (λ q. option_case (leer_nombres fuel q.0 q.1) none (λ r. some (m.content ∷ r.0, r.1)))
    else some ([], m)

module _ (red : List ℕ → Sac → Option (List ℕ × Sac)) (errno : ℕ) where
  -- A callback that answers the status it gets.
  unfoldable pub pedir_estado : ℤ → ℕ → List ℕ → Sac → Option (ℤ × Sac)
  pedir_estado op_res head content s =
      if ltb_ℤ op_res (pos 0)
      then some (pos 0, s)
      else option_case (pedir red errno (send_message head content) s) none
          (λ r. some (get_status r.0, r.2))

  unfoldable pub do_create : ℤ → List ℕ → Sac → Option (ℤ × Sac)
  do_create op_res path s = pedir_estado op_res Head.create path s

  unfoldable pub do_rmdir : ℤ → List ℕ → Sac → Option (ℤ × Sac)
  do_rmdir op_res path s = pedir_estado op_res Head.rmdir path s

  -- With no connection the answer is that of `send_message`.
  unfoldable pub do_unlink : ℤ → List ℕ → Sac → Option (ℤ × Sac)
  do_unlink op_res path s =
      if ltb_ℤ op_res (pos 0) then some (op_res, s) else pedir_estado op_res Head.unlink path s

  unfoldable pub do_mkdir : ℤ → List ℕ → Sac → Option (ℤ × Sac)
  do_mkdir op_res path s =
      if ltb 70 (length path) then some (enametoolong, s) else pedir_estado op_res Head.mkdir path s

  unfoldable pub do_read_link : ℤ → List ℕ → Sac → Option (ℤ × Sac)
  do_read_link op_res path s = pedir_estado op_res Head.read_link path s

  unfoldable pub do_mknod : ℤ → List ℕ → Sac → Option (ℤ × Sac)
  do_mknod op_res path s =
      if ltb 70 (length path)
      then some (enametoolong, s)
      else pedir_estado op_res Head.mknode path s

  unfoldable pub do_utimens : ℤ → List ℕ → ℕ → Sac → Option (ℤ × Sac)
  do_utimens op_res path last_mod s =
      pedir_estado op_res Head.utime (pedido_utimens path last_mod) s

  -- The status is dropped: `do_trucate` and `do_rename` answer 0.
  abbrev callar : Option (ℤ × Sac) → Option (ℤ × Sac)
  callar o = option_case o none (λ r. some (pos 0, r.1))

  unfoldable pub do_trucate : ℤ → List ℕ → ℕ → Sac → Option (ℤ × Sac)
  do_trucate op_res filename offset s =
      callar (pedir_estado op_res Head.truncate (pedido_truncate filename offset) s)

  unfoldable pub do_rename : ℤ → List ℕ → List ℕ → List ℕ → Sac → Option (ℤ × Sac)
  do_rename op_res basura old_path new_path s =
      if ltb 70 (length new_path)
      then some (enametoolong, s)
      else callar (pedir_estado op_res Head.rename (pedido_rename basura old_path new_path) s)

  -- The answer and the bytes that go to `buf`. A status of -1 is read as one byte, a NUL.
  unfoldable pub do_read : ℤ → List ℕ → ℕ → ℕ → Sac → Option (ℤ × List ℕ × Sac)
  do_read op_res path size off s =
      if ltb_ℤ op_res (pos 0)
      then some (pos 0, [], s)
      else option_case (pedir red errno (send_message Head.read (pedido_read path size off)) s) none
          (λ r. some (
            if r.0.head == Head.ok
            then (pos (length r.0.content), r.0.content, r.2)
            else if word_le (take 4 r.0.content) == 2 ^ 32 - 1
            then (pos 1, 0 ∷ [], r.2)
            else (get_status r.0, [], r.2)))

  -- The data go in a second message.
  unfoldable pub do_write : ℤ → List ℕ → List ℕ → ℕ → Sac → Option (ℤ × Sac)
  do_write op_res path buf off s =
      if ltb_ℤ op_res (pos 0)
      then some (pos 0, s)
      else option_case
          (pedir red errno
            (send_message Head.write (pedido_read path (length buf) off)
              ++ send_message Head.ok buf)
            s)
          none
          (λ r. some ((if r.0.head == Head.error then get_status r.0 else pos (length buf)), r.2))

  -- One exchange of `do_getattr`, whose answer is read by `leer`.
  unfoldable pub pedir_atributos :
      (TMessage → Stat) → ℤ → List ℕ → Sac → Option (ℤ × Option Stat × Sac)
  pedir_atributos leer op_res path s =
      if ltb_ℤ op_res (pos 0)
      then some (pos 0, none, s)
      else option_case (pedir red errno (send_message Head.get_attr path) s) none (λ r. some (
          if r.0.head == Head.ok
          then (pos 0, some (leer r.0), r.2)
          else (get_status r.0, none, r.2)))

  -- The answer for the root is read in another way. Where its request does not go out, it is made
  -- once more, as for another path; `op_res2` is what `send_message` answers then.
  unfoldable pub do_getattr : ℤ → ℤ → List ℕ → Sac → Option (ℤ × Option Stat × Sac)
  do_getattr op_res op_res2 path s =
      let otra = pedir_atributos (λ m. leer_stat m.content) in
      if bytes_eq path (b'/' ∷ [])
      then (if ltb_ℤ op_res (pos 0)
          then otra op_res2 path s
          else pedir_atributos stat_raiz op_res path s)
      else otra op_res path s

  -- Every message of the answer takes a byte at least.
  unfoldable pub do_readdir : ℤ → List ℕ → Sac → Option (ℤ × List (List ℕ) × Sac)
  do_readdir op_res path s =
      if ltb_ℤ op_res (pos 0)
      then some (pos 0, [], s)
      else option_case (pedir red errno (send_message Head.readdir path) s) none (λ r.
        if r.0.head == Head.error
        then some (get_status r.0, [], r.2)
        else option_case (leer_nombres (2 + length r.1.bytes) r.0 r.1) none
            (λ q. some (get_status q.1, (b'.' ∷ []) ∷ (b'.' ∷ b'.' ∷ []) ∷ q.0, r.2)))

-- Those that do not ask the server.
abbrev pub sin_pedido : Sac → Option (ℤ × Sac)
sin_pedido s = some (pos 0, s)

unfoldable pub do_opendir : Sac → Option (ℤ × Sac)
do_opendir s = sin_pedido s

unfoldable pub do_access : Sac → Option (ℤ × Sac)
do_access s = sin_pedido s

unfoldable pub do_setxattr : Sac → Option (ℤ × Sac)
do_setxattr s = sin_pedido s

unfoldable pub do_release : Sac → Option (ℤ × Sac)
do_release s = sin_pedido s
