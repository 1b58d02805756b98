-- ===== src/Dataset.antt =====
-- src/primihub/service/dataset/service.cc, src/primihub/service/dataset/model.cc,
-- src/primihub/service/dataset/meta_service/memory_impl.cc with localkv/storage_default.cc, and
-- src/primihub/node/ds.cc: the registration of datasets at a node, with the metadata kept in memory. The
-- factory of the drivers, what they read and the JSON library are a parameter.
pub mod Json
pub mod Register
pub mod Tests
pub use primihub.Dataset.Json.{JsonValue, text, number, JsonObject, json_field}
unfoldable pub use primihub.Dataset.Json.{
  text_at, number_at, text_if_there, object_fields, extract_fields, from_fields,
}
use primihub.Prelude.{
  ℕ, ◌≡◌, ◌||◌, Option, none, some, List, [], ◌∷◌, ◌++◌, map, leb, nat_beq, if◌then◌else◌, Bytes,
  codes, has, take, Retcode, success, fail,
}
use primihub.Prelude.Dict.{Dict, assign, erase, insert, lookup}

abbrev ◌>>=◌ : {A B : Type 0} → Option A → (A → Option B) → Option B
◌>>=◌ none f = none
◌>>=◌ (some a) f = f a

-- `DatasetMetaInfo`, as a client sends it.
pub record MetaInfo : Type 0 where
  pub id : Bytes
  pub driver_type : Bytes
  pub access_info : Bytes
  pub schema : List (Bytes × ℕ)

-- `DatasetMeta`, with its enumerations as their numbers. The schema is that of a table.
pub record Meta : Type 0 where
  pub id : Bytes
  pub data_url : Bytes
  pub server_meta : Bytes
  pub access_meta : Bytes
  pub description : Bytes
  pub visibility : ℕ
  pub driver_type : Bytes
  pub data_type : ℕ
  pub schema : List (Bytes × ℕ)
  pub total_records : ℕ

-- `createAccessInfo` and `getDriver`: an exception, or a driver and the text of its access information.
pub data Created (D : Type 0) : Type 0 where
  raises : Bytes → Created D
  made : D → Bytes → Created D

-- What the driver says of itself and its data: its type, the address of its node, its url, the fields and
-- the number of rows.
pub record Seen : Type 0 where
  pub driver_type : Bytes
  pub nodelet_addr : Bytes
  pub data_url : Bytes
  pub schema : List (Bytes × ℕ)
  pub num_rows : ℕ

-- The constructor of `DatasetMeta` from a dataset, as a public table.
unfoldable pub meta_of : Seen → Bytes → Bytes → Meta
meta_of x id access = record {
  id = id;
  data_url = x.nodelet_addr ++ (b':' ∷ x.data_url);
  server_meta = x.nodelet_addr;
  access_meta = access;
  description = id;
  visibility = 0;
  driver_type = x.driver_type;
  data_type = 0;
  schema = x.schema;
  total_records = x.num_rows;
}

-- `driver->read()` and `readMeta()`: an exception, null, or what the driver sees.
pub data Reading : Type 0 where
  breaks : Bytes → Reading
  nothing : Reading
  sees : Seen → Reading

-- What the service takes from elsewhere: the drivers, and the JSON library. A text that is no object, or
-- no array of objects, is `none`. What has been written can be read again, an object with its entries in
-- any order. `unset` is what a new `DatasetMeta` happens to have in `total_records`, which its
-- constructor does not set.
pub record Library (D : Type 0) : Type 0 where
  pub create_driver : MetaInfo → Created D
  pub read_meta : D → Reading
  pub dump : JsonObject → Bytes
  pub parse : Bytes → Option JsonObject
  pub dump_array : List JsonObject → Bytes
  pub parse_array : Bytes → Option (List JsonObject)
  pub unset : ℕ
  pub parse_dump :
      (o : JsonObject)
      → (p : JsonObject) × (parse (dump o) ≡ some p) × ((k : Bytes) → lookup k p ≡ lookup k o)
  pub parse_empty : parse [] ≡ none
  pub parse_dump_array :
      (l : List (Bytes × ℕ)) → parse_array (dump_array (map json_field l)) ≡ some (map json_field l)

-- `DatasetService` and its meta service.
pub record Service (D : Type 0) : Type 0 where
  pub driver_manager : Dict D
  pub storage : Dict Bytes

-- `rpc::NewDatasetResponse`.
pub record DatasetReply : Type 0 where
  pub ret_code : Retcode
  pub ret_msg : Bytes
  pub dataset_url : Bytes

abbrev pub refuse : Bytes → DatasetReply
refuse msg = record { ret_code = fail; ret_msg = msg; dataset_url = [] }

-- `NewDatasetRequest::op_type`.
pub data OpType : Type 0 where
  register_dataset : OpType
  unregister_dataset : OpType
  update_dataset : OpType
  other_operation : Bytes → OpType

-- The loop over the names of the fields, with those seen so far: the first that comes twice.
unfoldable pub find_duplicate : List Bytes → List (Bytes × ℕ) → Option Bytes
find_duplicate dup [] = none
find_duplicate dup ((name, type) ∷ r) =
    let rest = find_duplicate (name ∷ dup) r in if has name dup then some name else rest

module _ {D : Type 0} (lib : Library D) where
  -- `TableSchema::toJSON`.
  unfoldable pub schema_to_json : List (Bytes × ℕ) → Bytes
  schema_to_json l = lib.dump_array (map json_field l)

  -- `TableSchema::fromJSON`: a text that cannot be read gives no fields.
  unfoldable pub schema_from_json : Bytes → List (Bytes × ℕ)
  unfolding extract_fields from_fields
  schema_from_json s = elim (lib.parse_array s) [
    | none ↦ from_fields []
    | some os ↦ elim (extract_fields os) [ none ↦ from_fields [] | some l ↦ from_fields l ]
  ]

  -- `DatasetMeta::toJSON`.
  unfoldable pub to_json : Meta → JsonObject
  unfolding schema_to_json
  to_json m =
      (codes "id", text m.id)
      ∷ (codes "data_url", text m.data_url)
      ∷ (codes "data_type", number m.data_type)
      ∷ (codes "description", text m.description)
      ∷ (codes "visibility", number m.visibility)
      ∷ (codes "schema", text (schema_to_json m.schema))
      ∷ (codes "driver_type", text m.driver_type)
      ∷ (codes "server_meta", text m.server_meta)
      ∷ (codes "access_meta", text m.access_meta)
      ∷ []

  -- `DatasetMeta::fromJSON` on a new object, behind the parsing; `none` for an exception. No fields stand
  -- for the null pointer that is the schema of what is no table.
  unfoldable pub from_json : JsonObject → Option Meta
  unfolding text_at number_at text_if_there schema_from_json
  from_json o = do
    id ← text_at (codes "id") o
    data_url ← text_at (codes "data_url") o
    description ← text_at (codes "description") o
    data_type ← number_at (codes "data_type") o
    visibility ← number_at (codes "visibility") o
    schema ← text_at (codes "schema") o
    driver_type ← text_at (codes "driver_type") o
    server_meta ← text_if_there (codes "server_meta") o
    access_meta ← text_if_there (codes "access_meta") o
    some (record {
      id = id;
      data_url = data_url;
      server_meta = server_meta;
      access_meta = access_meta;
      description = description;
      visibility = visibility;
      driver_type = driver_type;
      data_type = data_type;
      schema = if nat_beq data_type 0 then schema_from_json schema else [];
      total_records = lib.unset;
    })

  -- `MemoryDatasetMetaService::PutMeta` with `PutValue`, which emplaces: it always succeeds.
  unfoldable pub put_meta : Meta → Service D → Service D
  unfolding to_json
  put_meta m s = record s { storage = insert m.id (lib.dump (to_json m)) s.storage }

  abbrev stored_text : Option Bytes → Bytes
  stored_text none = []
  stored_text (some v) = v

  -- `MemoryDatasetMetaService::GetMeta`: what the handler is given; `none` for an exception. The result of
  -- `GetValue` is not looked at.
  unfoldable pub get_meta : Bytes → Service D → Option Meta
  unfolding from_json
  get_meta id s = elim (lib.parse (stored_text (lookup id s.storage))) [
    | none ↦ none
    | some o ↦ from_json o
  ]

  -- `registerDriver`.
  unfoldable register_driver : Bytes → D → Service D → Service D
  register_driver id d s = record s { driver_manager = assign id d s.driver_manager }

  -- `unRegisterDriver`.
  unfoldable unregister_driver : Bytes → Service D → Service D
  unregister_driver id s = record s { driver_manager = erase id s.driver_manager }

  -- `DataServiceImpl::RegisterDatasetProcess`, with `DatasetService::newDataset`. What a throwing call wrote
  -- before it stays.
  unfoldable pub register_process : MetaInfo → Service D → DatasetReply × Service D
  unfolding put_meta register_driver unregister_driver meta_of
  register_process info s = elim (lib.create_driver info) [
    | raises msg ↦ (refuse (take 1024 msg), s)
    | made d access ↦
        let k = register_driver info.id d s in
        elim (lib.read_meta d) [
          | breaks msg ↦ (refuse (take 1024 msg), k)
          | nothing ↦ (refuse [], unregister_driver info.id k)
          | sees x ↦ (
            record {
              ret_code = success;
              ret_msg = [];
              dataset_url = (meta_of x info.id access).data_url;
            },
            put_meta (meta_of x info.id access) k,
          )
        ]
  ]

  -- `DataServiceImpl::NewDataset`.
  unfoldable pub new_dataset : MetaInfo → OpType → Service D → DatasetReply × Service D
  unfolding find_duplicate register_process
  new_dataset info op s = elim (find_duplicate [] info.schema) [
    | some name ↦
        (refuse (codes "Duplicate Field name: " ++ (name ++ codes " in dataset Schema")), s)
    | none ↦ elim op [
      | register_dataset ↦ register_process info s
      | unregister_dataset ↦ (record { ret_code = success; ret_msg = []; dataset_url = [] }, s)
      | update_dataset ↦ register_process info s
      | other_operation n ↦ (refuse (codes "unsupported operation type: " ++ n), s)
    ]
  ]

  -- What `findDataset` returns, and what its handler is given; `none` for an exception.
  unfoldable pub find_dataset : Bytes → Service D → Option (Retcode × Meta)
  unfolding get_meta
  find_dataset id s = elim (get_meta id s) [ none ↦ none | some m ↦ some (success, m) ]

  -- `getDriver` for an id: the driver is made anew from the metadata. `none` for an exception that
  -- leaves the call, and `some none` for a null driver.
  unfoldable get_driver : Bytes → Service D → Option (Option D)
  unfolding get_meta
  get_driver id s = elim (get_meta id s) [
    | none ↦ none
    | some m ↦
        elim (lib.create_driver (record {
          id = m.id;
          driver_type = m.driver_type;
          access_info = m.access_meta;
          schema = m.schema;
        })) [ raises msg ↦ some none | made d access ↦ some (some d) ]
  ]
