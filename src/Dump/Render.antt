-- ===== src/Dump/Render.antt =====
-- What a value of the format looks like when it is printed, by its structure.
use node_geoip2c.Base.{
  ℕ, ◌+◌, ◌/◌, ◌%◌, ◌^◌, ◌<◌, ◌≡◌, ◌==◌, Bool, List, [], ◌∷◌, ◌++◌, if◌then◌else◌, length, codes,
  u16, u32, u64,
}
use node_geoip2c.Types.{Value}
use node_geoip2c.Format.Datum.{Datum, Items, Pairs, NumberType}
use node_geoip2c.Dump.{
  Printer, newline, indentation, hex_string, hex_digits, format_unsigned, format_signed, quoted,
}

-- A C string ends at its first NUL.
abbrev pub until_nul : List ℕ → List ℕ
until_nul [] = []
until_nul (b ∷ bs) = let rest = until_nul bs in if b == 0 then [] else b ∷ rest

abbrev pub number_text : NumberType → ℕ → List ℕ
number_text NumberType.uint16 v = format_unsigned (u16 v) ++ codes " <uint16>"
number_text NumberType.uint32 v = format_unsigned (u32 v) ++ codes " <uint32>"
number_text NumberType.int32 v = format_signed (u32 v) ++ codes " <int32>"
number_text NumberType.uint64 v = format_unsigned (u64 v) ++ codes " <uint64>"
number_text NumberType.uint128 v =
    codes "0x"
    ++ (hex_digits 16 (v / 2 ^ 64 % 2 ^ 64) ++ (hex_digits 16 (v % 2 ^ 64) ++ codes " <uint128>"))

abbrev pub pair_line : ℕ → List ℕ → List ℕ
pair_line indent key = indentation indent ++ (quoted (until_nul key) ++ (codes ": " ++ newline))

module _ (printer : Printer) where
  -- The line of a value without members; a map and an array have none.
  abbrev pub line : Datum → List ℕ
  line (Datum.text bs) = quoted (until_nul bs) ++ codes " <utf8_string>"
  line (Datum.blob bs) = hex_string bs ++ codes " <bytes>"
  line (Datum.number t v) = number_text t v
  line (Datum.float v) = printer.format_float (u32 v) ++ codes " <float>"
  line (Datum.double v) = printer.format_double (u64 v) ++ codes " <double>"
  line (Datum.boolean b) = (if b then codes "true" else codes "false") ++ codes " <boolean>"
  line (Datum.map ps) = []
  line (Datum.array ds) = []

  abbrev pub simple_text : ℕ → Datum → List ℕ
  simple_text indent d = indentation indent ++ (line d ++ newline)

  abbrev mutual
    pub render : ℕ → Datum → List ℕ
    render indent (Datum.map ps) =
        indentation indent
        ++ ((b'{' ∷ newline)
            ++ (render_pairs (indent + 2) ps ++ (indentation indent ++ (b'}' ∷ newline))))
    render indent (Datum.array ds) =
        indentation indent
        ++ ((b'[' ∷ newline)
            ++ (render_items (indent + 2) ds ++ (indentation indent ++ (b']' ∷ newline))))
    render indent (Datum.text bs) = simple_text indent (Datum.text bs)
    render indent (Datum.blob bs) = simple_text indent (Datum.blob bs)
    render indent (Datum.number t v) = simple_text indent (Datum.number t v)
    render indent (Datum.float v) = simple_text indent (Datum.float v)
    render indent (Datum.double v) = simple_text indent (Datum.double v)
    render indent (Datum.boolean b) = simple_text indent (Datum.boolean b)

    pub render_items : ℕ → Items → List ℕ
    render_items indent Items.nil = []
    render_items indent (Items.cons d ds) = render indent d ++ render_items indent ds

    pub render_pairs : ℕ → Pairs → List ℕ
    render_pairs indent Pairs.end = []
    render_pairs indent (Pairs.pair k d ps) =
        pair_line indent k ++ (render (indent + 2) d ++ render_pairs indent ps)

  -- What is printed of a member that was written last: the union is little-endian, and the bytes
  -- behind a shorter member are zero.
  pub record ReadsUnion : Type 0 where
    pub uint16 : (v : ℕ) → printer.word (Value.uint16 v) ≡ v
    pub uint32 : (v : ℕ) → printer.word (Value.uint32 v) ≡ v
    pub int32 : (v : ℕ) → printer.word (Value.int32 v) ≡ v
    pub uint64 : (v : ℕ) → printer.word (Value.uint64 v) ≡ v
    pub uint128 : (v : ℕ) → printer.long_word (Value.uint128 v) ≡ v
    pub double_value : (v : ℕ) → printer.word (Value.double_value v) ≡ v
    pub float_value : (v : ℕ) → printer.word (Value.float_value v) ≡ v
    pub boolean : (b : Bool) → printer.word (Value.boolean b) ≡ (if b then 1 else 0)

-- Every byte string has a byte, and fewer than 2^31.
abbrev mutual
  pub HasPrintableBlobs : Datum → Type 0
  HasPrintableBlobs (Datum.blob bs) = (0 < length bs) × (length bs < 2 ^ 31)
  HasPrintableBlobs (Datum.map ps) = PairsHavePrintableBlobs ps
  HasPrintableBlobs (Datum.array ds) = ItemsHavePrintableBlobs ds
  HasPrintableBlobs (Datum.text bs) = Unit {0}
  HasPrintableBlobs (Datum.number t v) = Unit {0}
  HasPrintableBlobs (Datum.float v) = Unit {0}
  HasPrintableBlobs (Datum.double v) = Unit {0}
  HasPrintableBlobs (Datum.boolean b) = Unit {0}

  pub ItemsHavePrintableBlobs : Items → Type 0
  ItemsHavePrintableBlobs Items.nil = Unit {0}
  ItemsHavePrintableBlobs (Items.cons d ds) = HasPrintableBlobs d × ItemsHavePrintableBlobs ds

  pub PairsHavePrintableBlobs : Pairs → Type 0
  PairsHavePrintableBlobs Pairs.end = Unit {0}
  PairsHavePrintableBlobs (Pairs.pair k d ps) = HasPrintableBlobs d × PairsHavePrintableBlobs ps
