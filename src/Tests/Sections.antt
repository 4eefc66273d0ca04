-- ===== src/Tests/Sections.antt =====
-- Runs on the data section of the test database.
use node_geoip2c.Base.{ℕ, Bool, true}
use node_geoip2c.Bytes.RoundTrip.{to_bytes}
use node_geoip2c.Decode.{decode_one, decode_control, decode_typed, decode_payload, read_size}
use node_geoip2c.Decode.{decode_one_follow}
use node_geoip2c.Decode.Bounds.{ReadsBytes, data_section_limit, decode_one-progress}
use node_geoip2c.Path.{skip_map_or_array, aget_value, get_value}
use node_geoip2c.Path.Varargs.{get_value-varargs}
use node_geoip2c.Path.Fuel.{skip_map_or_array-ne-stuck}
use node_geoip2c.Path.Total.{aget_value-ne-stuck}
use node_geoip2c.Format.{HasHeader, header, type_bits, type_byte, size_bits, size_bytes}
use node_geoip2c.Format.Header.{decode_one-HasHeader}
use node_geoip2c.Format.Datum.{
  Datum, NumberType, Items, Pairs, HasPointer, Holds, Field, HoldsItems, HoldsPairs, Describes,
}
use node_geoip2c.Format.Field.{decode_one_follow-Field, Reads}
use node_geoip2c.Format.Value.{decode_one-Holds}
use node_geoip2c.Format.Skip.{IsField, skip_map_or_array-IsField}
use node_geoip2c.Format.Find.{Decimal, Answers}
use node_geoip2c.Format.Walk.{Selects, Reaches, aget_value-Reaches}
use node_geoip2c.EntryList.{get_entry_data_list}
use node_geoip2c.EntryList.Loops.{Gives}
use node_geoip2c.EntryList.Flatten.{get_entry_data_list-Field}
use node_geoip2c.Tests.{ipv4_db, all_bytes-get_elem?}
use node_geoip2c.Base.{
  ◌+◌, ◌*◌, ◌^◌, ◌≤◌, ◌<◌, ◌≡◌, refl, ◌≢◌, true, none, some, [], ◌∷◌, arith, ltb, if◌then◌else◌,
}
use node_geoip2c.Types.{EntryData, Error, Value, data_byte, failure, stuck, success, zeroed_entry}

get_value-varargs_example :
    get_value (λ n. ltb n 100) zeroed_entry ipv4_db 23 zeroed_entry (some (97 ∷ []) ∷ none ∷ []) ≡ (
      if ltb ((1 + 1) * 8) 100
      then aget_value zeroed_entry ipv4_db 23 ((97 ∷ []) ∷ [])
      else failure Error.out_of_memory zeroed_entry)
get_value-varargs_example =
    get_value-varargs (λ n. ltb n 100) zeroed_entry ipv4_db 23 zeroed_entry ((97 ∷ []) ∷ []) []

pub ipv4_db_bytes : ReadsBytes (data_byte ipv4_db)
unfolding data_byte
ipv4_db_bytes i b h = all_bytes-get_elem? ipv4_db.mapping (6 + i) b refl h

pub ipv4_db_limit : ipv4_db.data_section_size ≤ data_section_limit
ipv4_db_limit = omega arith

abbrev pub five : Datum
five = Datum.number NumberType.uint16 5

abbrev fives : Datum
fives = Datum.array (Items.cons five Items.nil)

abbrev pub pairs : Pairs
pairs = Pairs.pair (97 ∷ []) fives Pairs.end

five_header : HasHeader ipv4_db 5 1 21 22
unfolding data_byte header type_bits type_byte size_bits size_bytes
five_header = record {
  typed = omega arith;
  short = omega arith;
  sized = omega arith;
  inside = omega arith;
  spells = (refl, tt);
  body_lem = refl;
}

five_at : Holds ipv4_db five 21 23
unfolding data_byte to_bytes
five_at = Holds.number {n = 1} {body = 22} (omega arith) (omega arith) five_header (refl, tt)

fives_header : HasHeader ipv4_db 11 1 19 21
unfolding data_byte header type_bits type_byte size_bits size_bytes
fives_header = record {
  typed = omega arith;
  short = omega arith;
  sized = omega arith;
  inside = omega arith;
  spells = (refl, (refl, tt));
  body_lem = refl;
}

fives_at : Holds ipv4_db fives 19 23
fives_at =
    Holds.array {body = 21} fives_header (HoldsItems.cons (Field.direct five_at) HoldsItems.nil)

key_header : HasHeader ipv4_db 2 1 17 18
unfolding data_byte header type_bits type_byte size_bits size_bytes
key_header = record {
  typed = omega arith;
  short = omega arith;
  sized = omega arith;
  inside = omega arith;
  spells = (refl, tt);
  body_lem = refl;
}

key_at : Holds ipv4_db (Datum.text (97 ∷ [])) 17 19
unfolding data_byte
key_at = Holds.text {body = 18} key_header (refl, tt)

map_header : HasHeader ipv4_db 7 1 16 17
unfolding data_byte header type_bits type_byte size_bits size_bytes
map_header = record {
  typed = omega arith;
  short = omega arith;
  sized = omega arith;
  inside = omega arith;
  spells = (refl, tt);
  body_lem = refl;
}

pub map_at : Holds ipv4_db (Datum.map pairs) 16 23
map_at =
    Holds.map {body = 17} map_header
      (HoldsPairs.pair (Field.direct key_at) (Field.direct fives_at) HoldsPairs.end)

pointer_at : HasPointer ipv4_db 16 23 25
unfolding data_byte to_bytes
pointer_at = record {
  size = 0;
  high = 0;
  small = omega arith;
  high_lt = omega arith;
  inside = omega arith;
  control = refl;
  value = 0;
  value_lt = omega arith;
  spells = (refl, tt);
  leads = refl;
  target_lt = omega arith;
  next_lem = refl;
}

pub pointed_map : Field ipv4_db (Datum.map pairs) 23 25
pointed_map = Field.pointed pointer_at map_at

pub path_to_five : Reaches (Datum.map pairs) ((97 ∷ []) ∷ (48 ∷ []) ∷ []) (some five)
path_to_five = Reaches.step {d' = fives} Selects.key (
    Reaches.step {d' = five}
      (Selects.index {i = 0} (record {
        first = 0;
        rest = [];
        is_digit_lem = omega arith;
        spelled = refl;
        spells = Decimal.digit {n = 0} (omega arith) Decimal.end;
        int = omega arith;
      }))
      Reaches.here)

aget_value-Reaches_example :
    Answers ipv4_db (some five) (aget_value zeroed_entry ipv4_db 23 ((97 ∷ []) ∷ (48 ∷ []) ∷ []))
aget_value-Reaches_example =
    aget_value-Reaches ipv4_db ipv4_db_limit ipv4_db_bytes zeroed_entry ((97 ∷ []) ∷ (48 ∷ []) ∷ [])
      (Datum.map pairs) 23 25 (some five) pointed_map path_to_five

aget_value-ne-stuck_example : aget_value zeroed_entry ipv4_db 23 ((97 ∷ []) ∷ []) ≢ stuck
aget_value-ne-stuck_example =
    aget_value-ne-stuck zeroed_entry ipv4_db ipv4_db_bytes ipv4_db_limit 23 ((97 ∷ []) ∷ [])

decode_one-Holds_example :
    (e : EntryData) × (decode_one ipv4_db 16 zeroed_entry ≡ success e)
    × Describes ipv4_db e (Datum.map pairs) 23
decode_one-Holds_example = decode_one-Holds ipv4_db ipv4_db_limit zeroed_entry map_at

decode_one_follow-Field_example :
    Reads ipv4_db ipv4_db_limit 23 25 (Datum.map pairs) (decode_one_follow ipv4_db 23 zeroed_entry)
decode_one_follow-Field_example =
    decode_one_follow-Field ipv4_db ipv4_db_limit zeroed_entry pointed_map

abbrev map_entry : EntryData
map_entry = record {
  has_data = true;
  value = Value.zeroed;
  offset = 16;
  offset_to_next = 17;
  data_size = 1;
  type = 7;
}

skip_map_or_array-IsField_example :
    (e : EntryData) × (skip_map_or_array ipv4_db map_entry ≡ success e) × (e.offset_to_next ≡ 23)
skip_map_or_array-IsField_example =
    skip_map_or_array-IsField ipv4_db ipv4_db_limit ipv4_db_bytes map_entry 23 (
      IsField.value (Datum.map pairs)
        (refl, refl, HoldsPairs.pair (Field.direct key_at) (Field.direct fives_at) HoldsPairs.end))

skip_map_or_array-ne-stuck_example : skip_map_or_array ipv4_db map_entry ≢ stuck
skip_map_or_array-ne-stuck_example =
    skip_map_or_array-ne-stuck ipv4_db ipv4_db_bytes ipv4_db_limit map_entry

decoded_map : decode_one ipv4_db 16 zeroed_entry ≡ success map_entry
unfolding decode_one decode_control decode_typed decode_payload read_size data_byte
decoded_map = refl

decode_one-progress_example :
    (16 ≤ 25)
    × (map_entry.offset ≡ 16)
    × (map_entry.has_data ≡ true)
    × (16 < 17)
    × (17 ≤ 16 + 2 ^ 25)
decode_one-progress_example =
    decode_one-progress ipv4_db ipv4_db_bytes 16 zeroed_entry map_entry ipv4_db_limit decoded_map

decode_one-HasHeader_example :
    decode_one ipv4_db 19 zeroed_entry
    ≡ decode_payload ipv4_db 11 1 21
        (record zeroed_entry { has_data = true; offset = 19; type = 11 })
decode_one-HasHeader_example =
    decode_one-HasHeader ipv4_db ipv4_db_limit 11 1 19 21 zeroed_entry fives_header

abbrev grant_all : ℕ → Bool
grant_all n = true

get_entry_data_list-Field_example :
    Gives ipv4_db (Datum.map pairs) 25 (get_entry_data_list grant_all 20 ipv4_db 23 0)
get_entry_data_list-Field_example =
    get_entry_data_list-Field ipv4_db ipv4_db_limit grant_all (λ n. refl) 20 (Datum.map pairs) 23 25
      0 pointed_map (omega arith)
