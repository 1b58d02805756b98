-- ===== src/Dataset/Tests.antt =====
-- Runs and instances for src/primihub/service/dataset and src/primihub/node/ds.cc.
use primihub.Prelude.{
  ◌==◌, ℕ, zero, suc, ◌≡◌, refl, ap, ◌∙◌, inr, Option, none, some, List, [], ◌∷◌, map, Bytes, codes,
  success,
}
use primihub.Prelude.Texts.{get_list, put_list, get_list-put_list}
use primihub.Dataset.Register.{update_keeps_old}
use primihub.Dataset.{
  JsonValue, JsonObject, text, number, json_field, Meta, Seen, Library, MetaInfo, Service,
  find_duplicate, made, meta_of, sees, new_dataset, update_dataset, get_meta,
}
use primihub.Prelude.Dict.{lookup}

abbrev seen : Seen
seen = record {
  driver_type = codes "CSV";
  nodelet_addr = codes "n0";
  data_url = codes "x.csv";
  schema = (codes "c", 9) ∷ (codes "d", 24) ∷ [];
  num_rows = 5;
}

-- A library that writes an entry as two texts, and a field as one.
abbrev value_text : JsonValue → Bytes
value_text (text b) = 0 ∷ b
value_text (number n) = 1 ∷ n ∷ []

abbrev text_value : Bytes → JsonValue
text_value (suc k ∷ n ∷ r) = number n
text_value (zero ∷ b) = text b
text_value _ = text []

text_value-value_text : (v : JsonValue) → text_value (value_text v) ≡ v
text_value-value_text (text b) = refl
text_value-value_text (number n) = refl

abbrev object_texts : JsonObject → List Bytes
object_texts [] = []
object_texts ((key, v) ∷ r) = key ∷ value_text v ∷ object_texts r

abbrev texts_object : List Bytes → JsonObject
texts_object (key ∷ v ∷ r) = (key, text_value v) ∷ texts_object r
texts_object _ = []

texts_object-object_texts : (o : JsonObject) → texts_object (object_texts o) ≡ o
texts_object-object_texts [] = refl
texts_object-object_texts ((key, v) ∷ r) = cc (text_value-value_text v, texts_object-object_texts r)

abbrev parse : Bytes → Option JsonObject
parse [] = none
parse (n ∷ s) = some (texts_object (get_list (n ∷ s)))

abbrev field_text : JsonObject → Bytes
field_text ((name, number type) ∷ r) = type ∷ name
field_text _ = []

abbrev text_field : Bytes → JsonObject
text_field (type ∷ name) = json_field (name, type)
text_field _ = []

text_field-field_text :
    (l : List (Bytes × ℕ)) → map text_field (map field_text (map json_field l)) ≡ map json_field l
text_field-field_text [] = refl
text_field-field_text ((name, type) ∷ r) =
    ap (λ (o : List JsonObject). json_field (name, type) ∷ o) (text_field-field_text r)

-- A driver is the text of its access information, and each sees the same data.
abbrev library : Library Bytes
library = record {
  create_driver = λ i. made i.access_info i.access_info;
  read_meta = λ d. sees seen;
  dump = λ o. put_list (object_texts o);
  parse = parse;
  dump_array = λ os. put_list (map field_text os);
  parse_array = λ s. some (map text_field (get_list s));
  unset = 77;
  parse_dump = λ o. (
    o,
    ap some (ap texts_object (get_list-put_list (object_texts o)) ∙ texts_object-object_texts o),
    λ k. refl,
  );
  parse_empty = refl;
  parse_dump_array = λ l. ap some (
      ap (map text_field) (get_list-put_list (map field_text (map json_field l)))
      ∙ text_field-field_text l);
}

abbrev info : MetaInfo
info = record {
  id = codes "d";
  driver_type = codes "CSV";
  access_info = codes "x.csv";
  schema = (codes "c", 1) ∷ [];
}

abbrev no_datasets : Service Bytes
no_datasets = record { driver_manager = []; storage = [] }

abbrev url : Bytes
url = codes "n0:x.csv"

abbrev found : Meta
found = record {
  id = codes "d";
  data_url = url;
  server_meta = codes "n0";
  access_meta = codes "x.csv";
  description = codes "d";
  visibility = 0;
  driver_type = codes "CSV";
  data_type = 0;
  schema = (codes "c", 9) ∷ (codes "d", 23) ∷ [];
  total_records = 77;
}

-- A service with older metadata for the same id.
abbrev one_dataset : Service Bytes
one_dataset = record {
  driver_manager = [];
  storage = (codes "d", put_list (codes "id" ∷ (0 ∷ codes "d") ∷ [])) ∷ [];
}

update_keeps_old_example :
    (k : Service Bytes) × (new_dataset library info update_dataset one_dataset
      ≡ (record { ret_code = success; ret_msg = []; dataset_url = url }, k))
    × ((j : Bytes) → get_meta library j k ≡ get_meta library j one_dataset)
unfolding find_duplicate lookup meta_of ◌==◌
update_keeps_old_example =
    update_keeps_old library info update_dataset (codes "x.csv") (codes "x.csv") seen
      (put_list (codes "id" ∷ (0 ∷ codes "d") ∷ [])) one_dataset (inr refl) refl refl refl refl
