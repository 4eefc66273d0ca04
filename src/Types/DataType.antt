-- ===== src/Types/DataType.antt =====
-- The MMDB_DATA_TYPE_* codes of libmaxminddb/include/maxminddb.h.
use Prim.Native.Nat.{ℕ}

abbrev pub extended : ℕ
extended = 0

abbrev pub pointer : ℕ
pointer = 1

abbrev pub utf8_string : ℕ
utf8_string = 2

abbrev pub double : ℕ
double = 3

abbrev pub bytes : ℕ
bytes = 4

abbrev pub uint16 : ℕ
uint16 = 5

abbrev pub uint32 : ℕ
uint32 = 6

abbrev pub map : ℕ
map = 7

abbrev pub int32 : ℕ
int32 = 8

abbrev pub uint64 : ℕ
uint64 = 9

abbrev pub uint128 : ℕ
uint128 = 10

abbrev pub array : ℕ
array = 11

abbrev pub container : ℕ
container = 12

abbrev pub end_marker : ℕ
end_marker = 13

abbrev pub boolean : ℕ
boolean = 14

abbrev pub float : ℕ
float = 15
