-- ===== src/Binding/Js.antt =====
-- The JavaScript values that src/binding.cpp takes and makes.
use node_geoip2c.Base.{ℕ, Bool, true, false, List, [], ◌∷◌, bytes_eq, if◌then◌else◌}

-- `number` is a whole number, `double` another one by its bit pattern, `string` the UTF-8 bytes and
-- `function` a function of the binding by its name there.
mutual
  pub data JsValue : Type 0 where
    undefined : JsValue
    number : ℕ → JsValue
    double : ℕ → JsValue
    string : List ℕ → JsValue
    function : List ℕ → JsValue
    object : Properties → JsValue

  -- The properties of an object, in the order in which they were added.
  pub data Properties : Type 0 where
    no_properties : Properties
    property : List ℕ → JsValue → Properties → Properties

-- `Object->Set(key, value)`
unfoldable pub set_property : List ℕ → JsValue → Properties → Properties
set_property key value no_properties = property key value no_properties
set_property key value (property k v rest) =
    if bytes_eq k key then property k value rest else property k v (set_property key value rest)

-- `Object->Get(key)`
unfoldable pub get_property : List ℕ → Properties → JsValue
get_property key no_properties = undefined
get_property key (property k v rest) = if bytes_eq k key then v else get_property key rest

-- `value->ToObject()->Get(key)`; a number or a string has none of the keys that are asked for.
abbrev pub get_from : JsValue → List ℕ → JsValue
get_from (object o) key = get_property key o
get_from _ key = undefined

abbrev pub is_undefined : JsValue → Bool
is_undefined undefined = true
is_undefined _ = false

abbrev pub is_string : JsValue → Bool
is_string (string s) = true
is_string _ = false

-- The names of the properties.
abbrev pub keys : Properties → List (List ℕ)
keys no_properties = []
keys (property k v rest) = k ∷ keys rest
