-- ===== src/Dataset/Json.antt =====
-- src/primihub/service/dataset/model.cc and src/primihub/util/arrow_wrapper_util.cc: the JSON objects of
-- metadata and the fields of a schema. The text of an object is the JSON library's.
use primihub.Prelude.{
  ℕ, ◌&&◌, ◌||◌, Option, none, some, List, [], ◌∷◌, ◌++◌, leb, nat_beq, if◌then◌else◌, Bytes,
}
use primihub.Prelude.Dict.{Dict, lookup}

-- A JSON object, with the values that metadata has.
pub data JsonValue : Type 0 where
  text : Bytes → JsonValue
  number : ℕ → JsonValue

abbrev pub JsonObject : Type 0
JsonObject = Dict JsonValue

-- A field of a schema as an object of its own.
abbrev pub json_field : Bytes × ℕ → JsonObject
json_field (name, type) = (name, number type) ∷ []

-- `oJson[key].get<…>()`; `none` for an exception.
unfoldable pub text_at : Bytes → JsonObject → Option Bytes
text_at key o = elim (lookup key o) [ some (text s) ↦ some s | _ ↦ none ]

unfoldable pub number_at : Bytes → JsonObject → Option ℕ
number_at key o = elim (lookup key o) [ some (number n) ↦ some n | _ ↦ none ]

-- The same under `if (oJson.contains(key))`, on a member that is empty before.
unfoldable pub text_if_there : Bytes → JsonObject → Option Bytes
text_if_there key o = elim (lookup key o) [
  | none ↦ some []
  | some (text s) ↦ some s
  | some (number n) ↦ none
]

-- `TableSchema::extractFields` on an array of objects: the entries of each.
unfoldable pub object_fields : JsonObject → Option (List (Bytes × ℕ))
object_fields [] = some []
object_fields ((name, text s) ∷ r) = none
object_fields ((name, number type) ∷ r) = elim (object_fields r) [
  | none ↦ none
  | some l ↦ some ((name, type) ∷ l)
]

unfoldable pub extract_fields : List JsonObject → Option (List (Bytes × ℕ))
unfolding object_fields
extract_fields [] = some []
extract_fields (o ∷ os) = elim (object_fields o) [
  | none ↦ none
  | some a ↦ elim (extract_fields os) [ none ↦ none | some b ↦ some (a ++ b) ]
]

-- The id of the type that `MakeArrowDataType` makes, with the ids of `arrow::Type`: a decimal of 256 bits
-- becomes one of 128, and a type that it does not know a string.
unfoldable arrow_type : ℕ → ℕ
arrow_type type =
    if (leb 1 type && leb type 14) || (leb 16 type && leb type 20) || nat_beq type 23
    then type
    else if nat_beq type 24
    then 23
    else 13

-- `TableSchema::FromFields`.
unfoldable pub from_fields : List (Bytes × ℕ) → List (Bytes × ℕ)
unfolding arrow_type
from_fields [] = []
from_fields ((name, type) ∷ r) = (name, arrow_type type) ∷ from_fields r
