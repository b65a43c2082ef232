-- ===== src/Database/Values.antt =====
-- JSON values of the schemaless columns (`dict[str, Any]`), as far as the program looks into them.
use lineageiq.Common.{
  show, list_text, ℕ, String, List, [], ◌∷◌, Bool, Option, none, some, str_eq, if◌then◌else◌,
}

-- `json` stands for a structure or a fraction that is stored and never inspected, by its text.
pub data Value : Type 0 where
  null : Value
  boolean : Bool → Value
  int : ℕ → Value
  text : String → Value
  texts : List String → Value
  json : String → Value

abbrev pub Payload : Type 0
Payload = List (String × Value)

-- `payload.get(key)`
abbrev pub payload_get : String → Payload → Option Value
payload_get key [] = none
payload_get key ((k, v) ∷ p) = if str_eq k key then some v else payload_get key p

-- `f"{value}"`
abbrev pub value_text : Value → String
value_text null = "None"
value_text (boolean b) = if b then "True" else "False"
value_text (int n) = show n
value_text (text s) = s
value_text (texts ss) = list_text ss
value_text (json s) = s
