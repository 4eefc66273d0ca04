-- ===== src/Lib.antt =====
-- node-geoip2c: the Node module of src/binding.cpp and the database reader under it, the C library
-- in libmaxminddb/, which the repository carries as source and links into the module, as
-- definitions with their correctness theorems.
--
-- The parts and how they meet. MMDB_open maps a file; its search tree is looked up with an IP
-- address (MMDB_lookup_string, MMDB_lookup_sockaddr), which gives an offset into the data section;
-- from there MMDB_aget_value and MMDB_get_value walk through maps and arrays to one value, which
-- decode_one reads. The Node module keeps five databases in global variables: loadDb opens files
-- into them, lookupIp looks an address up in those that are open and asked for and gathers values
-- into an object of JavaScript, unload closes them. The command mmdblookup prints the value that a
-- database has for an address.
--
--   Types, Types/DataType    libmaxminddb/include/maxminddb.h: the structs as records, the codes, and
--                            Outcome: how a function that returns a status ends
--   Bytes                    the big-endian readers of libmaxminddb/src/maxminddb.c
--   Decode                   get_ext_type, get_ptr_from, decode_one, decode_one_follow
--   Strtol                   strtol and the conversion to int, as lookup_path_in_array uses them
--   Path                     skip_map_or_array, lookup_path_in_array, lookup_path_in_map,
--                            MMDB_aget_value, path_length, MMDB_vget_value, MMDB_get_value
--   Tree                     record_info_for_database, find_ipv4_start_node, populate_result,
--                            find_address_in_search_tree, MMDB_read_node
--   Lookup                   resolve_any_address, MMDB_lookup_sockaddr, MMDB_lookup_string
--   Compat                   mmdb_memmem, mmdb_strnlen, mmdb_strndup of
--                            libmaxminddb/src/maxminddb-compat-util.h
--   EntryList                get_entry_data_list, MMDB_get_entry_data_list,
--                            MMDB_get_metadata_as_entry_data_list, make_fake_metadata_db
--   Metadata                 find_metadata, the value_for_key functions, populate_languages_metadata,
--                            populate_description_metadata, read_metadata
--   Open                     MMDB_open, map_file
--   Close                    free_mmdb_struct, MMDB_close, and MMDB_open with its cleanup
--   Strerror                 MMDB_strerror
--   Dump                     MMDB_dump_entry_data_list, dump_entry_data_list, print_indentation,
--                            bytes_to_hex
--   Binding                  src/binding.cpp. Js: the values of V8; Constants: masks, labels and keys;
--                            Completion: the global databases, exceptions, and the interfaces Library
--                            (the calls of libmaxminddb) and Platform (V8, libc, stale memory);
--                            Fields, Collect: the SET_MMDB_ENTRY macros and their uses; Lookup:
--                            lookupIp; Load: loadMMDB, loadDb, unload; Exports: init; Libmaxminddb:
--                            the modelled library as a Library
--   Mmdblookup               the command libmaxminddb/bin/mmdblookup.c. Usage: usage, get_options;
--                            Lookups: open_or_die, lookup_or_die, lookup_and_print, benchmark,
--                            random_ipv4; Main: dump_meta, main
--   Format                   no code: the data section as libmaxminddb/t/maxmind-db/MaxMind-DB-spec.md
--                            describes it, what Decode and Path are proved against
--   Base                     tests on numbers, lists measured by native numbers, casts
--   Tests                    small databases, and each theorem applied to one
--
-- Conventions. A file is the list of its bytes; a pointer into it is a position, and NULL is none.
-- A read outside the file or the address, or of memory that was not written, is `fault`; what C
-- makes of such a read is undefined. A status other than MMDB_SUCCESS is `failure` with the output parameter as it is left. Unsigned arithmetic wraps as
-- written out (u16, u32, u64, sub16, sub32). The union of MMDB_entry_data_s is the member written
-- last; a float, a double and an int32 are their bits. An uninitialised local struct is the
-- parameter `stale`. getaddrinfo, the system calls of map_file, and the allocator (as the answer to
-- each allocation) are parameters. The metadata is read through any member of the union; `word`
-- says which number stands in its first eight bytes.
--
-- Fuel. skip_map_or_array recurses on fuel, and `stuck` says that it ran out; the size of the data
-- section and two is fuel enough, since each entry lies behind the one around it, on data sections
-- that are 32 MiB short of the range of uint32_t, where no offset wraps. All other loops are
-- structural: on the bits left, the size left, the index left or the path. get_entry_data_list
-- recurses and follows pointers on fuel too; there no fuel is enough for every file, since a chain
-- of pointers may be a cycle. What MMDB_open establishes holds for every fuel with which it
-- succeeds. dump_entry_data_list takes an entry at each level, so the length of the list is fuel
-- enough.
--
-- In src/binding.cpp each run of `if (mask & bit) { MMDB_get_value ...; SET_MMDB_ENTRY...; }` is a
-- table of fields, which `collect` goes through; the three blocks with a lookup of their own are
-- one function at three databases. A function of the binding ends in a Completion: a value, an
-- exception with the databases as they are then, a crash (a read that C leaves undefined), or no
-- end.
--
-- Not modelled: the debug printing under MMDB_DEBUG, the variant of get_uint128 for compilers
-- without a 128-bit integer, the Windows variant of map_file, errno (saved and restored), the
-- release of entry data lists and of the getaddrinfo list.
pub mod Base
pub mod Binding
pub mod Bytes
pub mod Close
pub mod Compat
pub mod Decode
pub mod Dump
pub mod EntryList
pub mod Format
pub mod Lookup
pub mod Metadata
pub mod Mmdblookup
pub mod Open
pub mod Path
pub mod Strerror
pub mod Strtol
pub mod Tests
pub mod Tree
pub mod Types
