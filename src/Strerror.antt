-- ===== src/Strerror.antt =====
-- MMDB_strerror of libmaxminddb/src/maxminddb.c.
use node_geoip2c.Base.{List, ℕ, Option, none, some, codes}
use node_geoip2c.Types.{Error}

-- The message of a status; `none` is MMDB_SUCCESS. There is no other status, so the default branch
-- is not reached.
unfoldable pub strerror : Option Error → List ℕ
strerror none = codes "Success (not an error)"
strerror (some Error.file_open) = codes "Error opening the specified MaxMind DB file"
strerror (some Error.corrupt_search_tree) = codes "The MaxMind DB file's search tree is corrupt"
strerror (some Error.invalid_metadata) = codes "The MaxMind DB file contains invalid metadata"
strerror (some Error.io) = codes "An attempt to read data from the MaxMind DB file failed"
strerror (some Error.out_of_memory) = codes "A memory allocation call failed"
strerror (some Error.unknown_database_format) =
    codes
      "The MaxMind DB file is in a format this library can't handle (unknown record size or binary format version)"
strerror (some Error.invalid_data) =
    codes "The MaxMind DB file's data section contains bad data (unknown data type or corrupt data)"
strerror (some Error.invalid_lookup_path) =
    codes "The lookup path contained an invalid value (like a negative integer for an array index)"
strerror (some Error.lookup_path_does_not_match_data) =
    codes
      "The lookup path does not match the data (key that doesn't exist, array index bigger than the array, expected array or map where none exists)"
strerror (some Error.invalid_node_number) =
    codes
      "The MMDB_read_node function was called with a node number that does not exist in the search tree"
strerror (some Error.ipv6_lookup_in_ipv4_database) =
    codes "You attempted to look up an IPv6 address in an IPv4-only database"
