-- ===== src/Tlv/Ty.antt =====
-- zipc/zipc_tlv.h: `ETlvType`, the type bytes.
use zcrt.Base.{ℕ}

abbrev pub nil : ℕ
nil = 1

abbrev pub bool_false : ℕ
bool_false = 2

abbrev pub bool_true : ℕ
bool_true = 3

abbrev pub int : ℕ
int = 4

abbrev pub int64 : ℕ
int64 = 6

abbrev pub str : ℕ
str = 0x11

abbrev pub table : ℕ
table = 0x12
