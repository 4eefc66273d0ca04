-- ===== src/Path/Varargs.antt =====
-- MMDB_get_value and MMDB_vget_value against MMDB_aget_value.
use node_geoip2c.Types.{failure, Error, EntryData, Mmdb}
use node_geoip2c.Path.{VaList, path_length, read_path, vget_value, get_value, aget_value}
use node_geoip2c.Base.{
  ℕ, ◌+◌, ◌*◌, ◌≡◌, refl, Bool, none, some, List, [], ◌∷◌, arith, if◌then◌else◌, length,
}

-- The arguments of a call: the path elements, NULL, and what else the caller has there.
abbrev pub varargs : List (List ℕ) → VaList → VaList
varargs [] rest = none ∷ rest
varargs (s ∷ path) rest = some s ∷ varargs path rest

path_length-varargs :
    (path : List (List ℕ)) (rest : VaList) → path_length (varargs path rest) ≡ some (length path)
unfolding path_length
path_length-varargs [] rest = refl
path_length-varargs (s ∷ path) rest = rw (path_length-varargs path rest) (ground arith)

read_path-varargs :
    (path : List (List ℕ)) (rest : VaList) → read_path (varargs path rest) ≡ some path
unfolding read_path
read_path-varargs [] rest = refl
read_path-varargs (s ∷ path) rest = rw (read_path-varargs path rest) refl

-- MMDB_get_value on path elements closed by NULL reads nothing behind the NULL and is
-- MMDB_aget_value on those elements, where malloc grants a pointer for each of them and for the
-- NULL; where malloc refuses that, it returns OUT_OF_MEMORY and leaves the entry data as it was.
pub get_value-varargs :
    (malloc : ℕ → Bool) (stale : EntryData) (m : Mmdb) (offset : ℕ) (entry_data : EntryData)
    (path : List (List ℕ)) (rest : VaList)
    → get_value malloc stale m offset entry_data (varargs path rest) ≡ (
        if malloc ((length path + 1) * 8)
        then aget_value stale m offset path
        else failure Error.out_of_memory entry_data)
unfolding get_value vget_value
get_value-varargs malloc stale m offset entry_data path rest =
    rw (path_length-varargs path rest, read_path-varargs path rest) refl
