-- ===== src/Protocol/Head.antt =====
-- t_header of shared/shared/protocol.h: the heads of the messages, as the numbers that are sent.
use tp_2019_2c_vendo_fiat.Base.{ℕ}

abbrev pub suse_init : ℕ
suse_init = 0

abbrev pub suse_create : ℕ
suse_create = 1

abbrev pub suse_schedule_next : ℕ
suse_schedule_next = 2

abbrev pub suse_wait : ℕ
suse_wait = 3

abbrev pub suse_signal : ℕ
suse_signal = 4

abbrev pub suse_join : ℕ
suse_join = 5

abbrev pub suse_close : ℕ
suse_close = 6

abbrev pub test : ℕ
test = 7

abbrev pub suse_content : ℕ
suse_content = 8

abbrev pub head : ℕ
head = 9

abbrev pub get_attr : ℕ
get_attr = 10

abbrev pub read_link : ℕ
read_link = 11

abbrev pub create : ℕ
create = 12

abbrev pub unlink : ℕ
unlink = 13

abbrev pub mkdir : ℕ
mkdir = 14

abbrev pub opendir : ℕ
opendir = 15

abbrev pub rmdir : ℕ
rmdir = 16

abbrev pub readdir : ℕ
readdir = 17

abbrev pub mknode : ℕ
mknode = 18

abbrev pub utime : ℕ
utime = 19

abbrev pub read : ℕ
read = 20

abbrev pub write : ℕ
write = 21

abbrev pub truncate : ℕ
truncate = 22

abbrev pub rename : ℕ
rename = 23

abbrev pub ok : ℕ
ok = 24

abbrev pub file_name : ℕ
file_name = 25

abbrev pub dir_name : ℕ
dir_name = 26

abbrev pub muse_alloc : ℕ
muse_alloc = 27

abbrev pub muse_free : ℕ
muse_free = 28

abbrev pub muse_get : ℕ
muse_get = 29

abbrev pub muse_cpy : ℕ
muse_cpy = 30

abbrev pub muse_map : ℕ
muse_map = 31

abbrev pub muse_sync : ℕ
muse_sync = 32

abbrev pub muse_unmap : ℕ
muse_unmap = 33

abbrev pub muse_init : ℕ
muse_init = 34

abbrev pub muse_close : ℕ
muse_close = 35

abbrev pub error : ℕ
error = 36

abbrev pub no_connection : ℕ
no_connection = 100

abbrev pub error_recv : ℕ
error_recv = 101

abbrev pub hi_please_be_my_friend : ℕ
hi_please_be_my_friend = 102

abbrev pub error_message : ℕ
error_message = 103
