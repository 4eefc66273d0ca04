-- ===== src/Dump.antt =====
-- Printing lists of entries: MMDB_dump_entry_data_list, dump_entry_data_list, print_indentation and
-- bytes_to_hex of libmaxminddb/src/maxminddb.c.
--
-- The stream is the list of the bytes written to it. printf of a floating-point number, the bytes of
-- the union and malloc are parameters.
pub mod Render
pub mod Lines
pub mod Listed
pub mod Whole
use node_geoip2c.Base.{
  ℕ, zero, suc, ◌+◌, ◌-◌, ◌*◌, ◌/◌, ◌%◌, ◌^◌, ◌&&◌, Bool, true, false, not, Option, none, some,
  List, [], ◌∷◌, ◌++◌, ◌==◌, ltb, leb, if◌then◌else◌, length, codes, u8, u16, u32, u64,
}
use node_geoip2c.Types.DataType
use node_geoip2c.Types.{
  Error, Outcome, success, failure, fault, stuck, ◌>>=◌, into, reading, Value, EntryData, Mmdb,
}
use node_geoip2c.Path.{bytes_at}
use node_geoip2c.Compat.{strndup}

-- `word` and `long_word` are the first 8 and 16 bytes of the union as little-endian numbers, the
-- formats are those of `%f` for the bits of a double and a float.
pub record Printer : Type 0 where
  pub word : Value → ℕ
  pub long_word : Value → ℕ
  pub format_double : ℕ → List ℕ
  pub format_float : ℕ → List ℕ
  pub malloc : ℕ → Bool

abbrev pub newline : List ℕ
newline = 10 ∷ []

abbrev pub spaces : ℕ → List ℕ
spaces zero = []
spaces (suc n) = 32 ∷ spaces n

-- print_indentation
unfoldable pub indentation : ℕ → List ℕ
indentation i = spaces (if leb 1024 i then 1023 else i)

-- A digit of `%X`.
abbrev pub hex_digit : ℕ → ℕ
hex_digit n = if ltb n 10 then 48 + n else 55 + n

-- The loop of bytes_to_hex.
abbrev pub hex_string : List ℕ → List ℕ
hex_string [] = []
hex_string (b ∷ bs) = hex_digit (b / 16 % 16) ∷ hex_digit (b % 16) ∷ hex_string bs

-- `%u`, for numbers of 20 digits at most.
abbrev pub decimal_digits : ℕ → ℕ → List ℕ
decimal_digits zero n = []
decimal_digits (suc left) n =
    let rest = decimal_digits left (n / 10) in
    if ltb n 10 then (48 + n) ∷ [] else rest ++ ((48 + n % 10) ∷ [])

abbrev pub format_unsigned : ℕ → List ℕ
format_unsigned n = decimal_digits 20 n

-- `%d` of 32 bits.
abbrev pub format_signed : ℕ → List ℕ
format_signed n = if leb (2 ^ 31) n then b'-' ∷ format_unsigned (2 ^ 32 - n) else format_unsigned n

-- `%016X`
abbrev pub hex_digits : ℕ → ℕ → List ℕ
hex_digits zero n = []
hex_digits (suc left) n = hex_digits left (n / 16) ++ (hex_digit (n % 16) ∷ [])

-- The list that is left to print, and what is printed.
pub record Dump : Type 0 where
  pub stream : List ℕ
  pub entries : List EntryData

abbrev pub put : List ℕ → Dump → Dump
put text s = record s { stream = s.stream ++ text }

-- `size` bytes at the pointer in the union.
unfoldable pub pointed_bytes : List ℕ → Value → ℕ → Option (List ℕ)
pointed_bytes mapping (Value.bytes p) size = bytes_at mapping p size
pointed_bytes mapping (Value.utf8_string (some p)) size = bytes_at mapping p size
pointed_bytes mapping _ size = if size == 0 then some [] else none

abbrev pub quoted : List ℕ → List ℕ
quoted text = b'"' ∷ (text ++ (b'"' ∷ []))

module _ (printer : Printer) where
  -- The line for a number, by its type; `none` is the default branch.
  unfoldable pub number_line : ℕ → Value → Option (List ℕ)
  number_line type value =
      if type == DataType.uint16
      then some (format_unsigned (u16 (printer.word value)) ++ codes " <uint16>")
      else if type == DataType.uint32
      then some (format_unsigned (u32 (printer.word value)) ++ codes " <uint32>")
      else if type == DataType.uint64
      then some (format_unsigned (u64 (printer.word value)) ++ codes " <uint64>")
      else if type == DataType.uint128
      then some (
          codes "0x"
          ++ (hex_digits 16 (printer.long_word value / 2 ^ 64 % 2 ^ 64)
              ++ (hex_digits 16 (printer.long_word value % 2 ^ 64) ++ codes " <uint128>")))
      else if type == DataType.int32
      then some (format_signed (u32 (printer.word value)) ++ codes " <int32>")
      else none

  -- The same for the other types without members.
  unfoldable pub scalar_line : ℕ → Value → Option (List ℕ)
  scalar_line type value =
      if type == DataType.double
      then some (printer.format_double (u64 (printer.word value)) ++ codes " <double>")
      else if type == DataType.float
      then some (printer.format_float (u32 (printer.word value)) ++ codes " <float>")
      else if type == DataType.boolean
      then some (
          (if u8 (printer.word value) == 0 then codes "false" else codes "true")
          ++ codes " <boolean>")
      else number_line type value

module _ (printer : Printer) (mapping : List ℕ) where
  -- mmdb_strndup of the entry's string, and what is done with the copy.
  unfoldable pub copied {ℓ} : {A : Type ℓ} → A → Value → ℕ → (List ℕ → Outcome A) → Outcome A
  copied out value size k =
      reading (strndup mapping value size)
        λ text. if printer.malloc (length text + 1) then k text else failure Error.out_of_memory out

  -- bytes_to_hex, and that its caller prints what is in the buffer. It writes before its caller looks
  -- at the result of malloc, and from 2^31 bytes on behind what it asked for; of no bytes it writes
  -- nothing, not even the terminator, and the caller prints what malloc left there.
  unfoldable pub bytes_to_hex : Value → ℕ → Outcome (List ℕ)
  bytes_to_hex value size =
      if printer.malloc (u32 (size * 2) + 1)
      then (if ltb 0 size && ltb size (2 ^ 31)
          then (reading (pointed_bytes mapping value size) λ bytes. success (hex_string bytes))
          else fault)
      else if size == 0
      then failure Error.out_of_memory []
      else fault

  -- The line for an entry that is no map and no array.
  unfoldable pub simple_line : ℕ → ℕ → Value → Outcome (List ℕ)
  simple_line type size value =
      if type == DataType.utf8_string
      then copied [] value size (λ text. success (quoted text ++ codes " <utf8_string>"))
      else if type == DataType.bytes
      then (bytes_to_hex value size >>= λ hex. success (hex ++ codes " <bytes>"))
      else (elim (scalar_line printer type value) [
        | none ↦ failure Error.invalid_data []
        | some line ↦ success line
      ])

  -- The loop over a map's pairs; `dump` is the recursive call, whose indentation goes first.
  unfoldable pub dump_pairs : (ℕ → Dump → Outcome Dump) → ℕ → ℕ → Dump → Outcome Dump
  dump_pairs dump indent zero s = success s
  dump_pairs dump indent (suc size) s = elim s.entries [
    | [] ↦ success s
    | key ∷ entries ↦ copied s key.value key.data_size λ text.
        dump (indent + 2) (record {
          stream = s.stream ++ (indentation indent ++ (quoted text ++ (codes ": " ++ newline)));
          entries = entries;
        })
        >>= λ s'. dump_pairs dump indent size s'
  ]

  unfoldable pub dump_items : (ℕ → Dump → Outcome Dump) → ℕ → ℕ → Dump → Outcome Dump
  dump_items dump indent zero s = success s
  dump_items dump indent (suc size) s = elim s.entries [
    | [] ↦ success s
    | e ∷ entries ↦ dump indent s >>= λ s'. dump_items dump indent size s'
  ]

  -- The `switch` on an entry of the type, with the entries behind it in `s`.
  unfoldable pub dump_typed : (ℕ → Dump → Outcome Dump) → ℕ → ℕ → ℕ → Value → Dump → Outcome Dump
  dump_typed dump indent type size value s =
      if type == DataType.map
      then (dump_pairs dump (indent + 2) size (put (indentation indent ++ (b'{' ∷ newline)) s)
          >>= λ s'. success (put (indentation indent ++ (b'}' ∷ newline)) s'))
      else if type == DataType.array
      then (dump_items dump (indent + 2) size (put (indentation indent ++ (b'[' ∷ newline)) s)
          >>= λ s'. success (put (indentation indent ++ (b']' ∷ newline)) s'))
      else into s (simple_line type size value)
          (λ line. success (put (indentation indent ++ (line ++ newline)) s))

  -- dump_entry_data_list on fuel. An empty list is NULL, whose entry is read.
  unfoldable pub dump_nested : ℕ → ℕ → Dump → Outcome Dump
  dump_nested zero indent s = stuck
  dump_nested (suc fuel) indent s = elim s.entries [
    | [] ↦ fault
    | e ∷ entries ↦
        dump_typed (λ i s'. dump_nested fuel i s') indent e.type e.data_size e.value
          (record s { entries = entries })
  ]

  -- MMDB_dump_entry_data_list. Each level takes an entry, so the length is fuel enough.
  unfoldable pub dump_entry_data_list : ℕ → Dump → Outcome Dump
  dump_entry_data_list indent s = dump_nested (suc (length s.entries)) indent s
