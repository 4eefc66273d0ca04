-- ===== src/Tests/Readers.antt =====
-- Runs of the big-endian readers.
use node_geoip2c.Base.{◌≡◌, refl, arith, ◌==◌, if◌then◌else◌, none, some}
use node_geoip2c.Bytes.{Pointer, get_uint_x, get_uint16, get_uint24, get_uint32}
use node_geoip2c.Bytes.RoundTrip.{to_bytes, get_uint_x-to_bytes, fixed_sizes-eq-get_uint_x}
use node_geoip2c.Decode.Bounds.{ReadsBytes}

abbrev two_bytes : Pointer
two_bytes i = if i == 0 then some 1 else if i == 1 then some 2 else if i == 2 then some 3 else none

two_bytes_bytes : ReadsBytes two_bytes
two_bytes_bytes i b h = ground arith

get_uint_x-to_bytes_example : get_uint_x two_bytes 2 ≡ some 258
unfolding to_bytes
get_uint_x-to_bytes_example =
    get_uint_x-to_bytes 2 258 two_bytes (omega arith) (omega arith) (refl, (refl, tt))

fixed_sizes-eq-get_uint_x_example :
    (get_uint16 two_bytes ≡ get_uint_x two_bytes 2)
    × (get_uint24 two_bytes ≡ get_uint_x two_bytes 3)
    × (get_uint32 two_bytes ≡ get_uint_x two_bytes 4)
fixed_sizes-eq-get_uint_x_example = fixed_sizes-eq-get_uint_x two_bytes two_bytes_bytes
