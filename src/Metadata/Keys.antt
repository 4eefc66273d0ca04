-- ===== src/Metadata/Keys.antt =====
-- The keys of the metadata map, as bytes.
use node_geoip2c.Base.{ℕ, List, [], ◌∷◌}

abbrev pub node_count : List ℕ
node_count = b'n' ∷ b'o' ∷ b'd' ∷ b'e' ∷ b'_' ∷ b'c' ∷ b'o' ∷ b'u' ∷ b'n' ∷ b't' ∷ []

abbrev pub record_size : List ℕ
record_size = b'r' ∷ b'e' ∷ b'c' ∷ b'o' ∷ b'r' ∷ b'd' ∷ b'_' ∷ b's' ∷ b'i' ∷ b'z' ∷ b'e' ∷ []

abbrev pub ip_version : List ℕ
ip_version = b'i' ∷ b'p' ∷ b'_' ∷ b'v' ∷ b'e' ∷ b'r' ∷ b's' ∷ b'i' ∷ b'o' ∷ b'n' ∷ []

abbrev pub database_type : List ℕ
database_type =
    b'd' ∷ b'a' ∷ b't' ∷ b'a' ∷ b'b' ∷ b'a' ∷ b's' ∷ b'e' ∷ b'_' ∷ b't' ∷ b'y' ∷ b'p' ∷ b'e' ∷ []

abbrev pub languages : List ℕ
languages = b'l' ∷ b'a' ∷ b'n' ∷ b'g' ∷ b'u' ∷ b'a' ∷ b'g' ∷ b'e' ∷ b's' ∷ []

abbrev pub binary_format_major_version : List ℕ
binary_format_major_version =
    b'b' ∷ b'i' ∷ b'n' ∷ b'a' ∷ b'r' ∷ b'y' ∷ b'_' ∷ b'f' ∷ b'o' ∷ b'r' ∷ b'm' ∷ b'a' ∷ b't' ∷ b'_'
    ∷ b'm' ∷ b'a' ∷ b'j' ∷ b'o' ∷ b'r' ∷ b'_' ∷ b'v' ∷ b'e' ∷ b'r' ∷ b's' ∷ b'i' ∷ b'o' ∷ b'n' ∷ []

abbrev pub binary_format_minor_version : List ℕ
binary_format_minor_version =
    b'b' ∷ b'i' ∷ b'n' ∷ b'a' ∷ b'r' ∷ b'y' ∷ b'_' ∷ b'f' ∷ b'o' ∷ b'r' ∷ b'm' ∷ b'a' ∷ b't' ∷ b'_'
    ∷ b'm' ∷ b'i' ∷ b'n' ∷ b'o' ∷ b'r' ∷ b'_' ∷ b'v' ∷ b'e' ∷ b'r' ∷ b's' ∷ b'i' ∷ b'o' ∷ b'n' ∷ []

abbrev pub build_epoch : List ℕ
build_epoch = b'b' ∷ b'u' ∷ b'i' ∷ b'l' ∷ b'd' ∷ b'_' ∷ b'e' ∷ b'p' ∷ b'o' ∷ b'c' ∷ b'h' ∷ []

abbrev pub description : List ℕ
description = b'd' ∷ b'e' ∷ b's' ∷ b'c' ∷ b'r' ∷ b'i' ∷ b'p' ∷ b't' ∷ b'i' ∷ b'o' ∷ b'n' ∷ []

-- METADATA_MARKER
abbrev pub metadata_marker : List ℕ
metadata_marker =
    0xab ∷ 0xcd ∷ 0xef ∷ b'M' ∷ b'a' ∷ b'x' ∷ b'M' ∷ b'i' ∷ b'n' ∷ b'd' ∷ b'.' ∷ b'c' ∷ b'o' ∷ b'm'
    ∷ []
