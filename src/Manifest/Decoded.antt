-- ===== src/Manifest/Decoded.antt =====
-- What `json.loads` gives. A list, an object or a number carries the text that `str` gives of it.
use aikernel_core.Base.{String, Bool, true, false, not, List, [], ◌∷◌, ◌==◌, if◌then◌else◌}

mutual
  pub data Json : Type 0 where
    null : Json
    text : String → Json
    boolean : Bool → Json
    number : (zero : Bool) (shown : String) → Json
    array : Items → (shown : String) → Json
    object : Fields → (shown : String) → Json

  pub data Items : Type 0 where
    no_item : Items
    item : Json → Items → Items

  pub data Fields : Type 0 where
    no_field : Fields
    field : String → Json → Fields → Fields

-- A dictionary of decoded values.
abbrev pub Document : Type 0
Document = List (String × Json)

unfoldable pub items_of : Items → List Json
items_of no_item = []
items_of (item value items) = value ∷ items_of items

unfoldable pub fields_of : Fields → Document
fields_of no_field = []
fields_of (field key value fields) = (key, value) ∷ fields_of fields

-- `str(value)`
unfoldable pub shown : Json → String
shown null = "None"
shown (text s) = s
shown (boolean b) = if b then "True" else "False"
shown (number z s) = s
shown (array items s) = s
shown (object fields s) = s

-- `bool(value)`
unfoldable pub truthy : Json → Bool
truthy null = false
truthy (text s) = not (s == "")
truthy (boolean b) = b
truthy (number z s) = not z
truthy (array no_item s) = false
truthy (array (item value items) s) = true
truthy (object no_field s) = false
truthy (object (field key value fields) s) = true
