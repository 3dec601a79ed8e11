-- ===== src/Protocol/Op.antt =====
-- `enum wirecall_op` of include/wirecall/protocol.h; a header holds any number in that field.
use wirecall.Common.{ℕ}

abbrev pub rpc : ℕ
rpc = 1

abbrev pub ping : ℕ
ping = 2

abbrev pub disconnect : ℕ
disconnect = 3

abbrev pub response : ℕ
response = 4

abbrev pub error : ℕ
error = 5
