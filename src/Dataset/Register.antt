-- ===== src/Dataset/Register.antt =====
-- src/primihub/node/ds.cc, src/primihub/service/dataset/service.cc and
-- src/primihub/service/dataset/meta_service: what the registration of a dataset leaves behind.
use primihub.Prelude.{◌≡◌, refl, ◌⊎◌, inl, inr, none, some, [], arith, Bytes, success}
use primihub.Dataset.{
  OpType, from_fields, to_json, MetaInfo, Meta, made, breaks, nothing, sees, Seen, Library, Service,
  meta_of, put_meta, get_meta, register_process, new_dataset, find_duplicate, register_dataset,
  update_dataset,
}
use primihub.Prelude.Dict.{lookup, assign, insert_there, lookup-assign_self, lookup-erase_self}

module _ {D : Type 0} (lib : Library D) where
  -- The metadata as it is read again: the types of the fields are those that Arrow's types are made for,
  -- and the number of records is lost.
  abbrev restored : Meta → Meta
  restored m = record m { schema = from_fields m.schema; total_records = lib.unset }

  -- An update is lost: where the id has metadata, an update or another registration, whose fields have
  -- different names, whose driver can be made and which the driver can read, replies with a success and
  -- the new url, but this id and all others keep the metadata that they had.
  pub update_keeps_old :
      (info : MetaInfo) (op : OpType) (d : D) (access : Bytes) (x : Seen) (v : Bytes)
      (s : Service D)
      → (op ≡ register_dataset) ⊎ (op ≡ update_dataset)
      → find_duplicate [] info.schema ≡ none
      → lookup info.id s.storage ≡ some v
      → lib.create_driver info ≡ made d access
      → lib.read_meta d ≡ sees x
      → (k : Service D) × (new_dataset lib info op s ≡ (
        record {
          ret_code = success;
          ret_msg = [];
          dataset_url = (meta_of x info.id access).data_url;
        },
        k,
      ))
        × ((j : Bytes) → get_meta lib j k ≡ get_meta lib j s)
  unfolding new_dataset register_process get_meta put_meta
  update_keeps_old info op d access x v s o u n c r =
      let m : Meta = meta_of x info.id access in
      let e = insert_there info.id (lib.dump (to_json lib m)) v s.storage n in
      (
        record s { driver_manager = assign info.id d s.driver_manager },
        elim o [
          | inl q ↦ rw q (ground (arith, u, c, r, e))
          | inr q ↦ rw q (ground (arith, u, c, r, e))
        ],
        λ j. refl,
      )

  -- A driver is kept exactly if the reading of its data gives metadata or throws: where it gives none,
  -- the id has no driver after the registration, and where it throws, which the client is told as a
  -- failure too, the driver stays.
  register-driver :
      (info : MetaInfo) (d : D) (access : Bytes) (s : Service D)
      → find_duplicate [] info.schema ≡ none
      → lib.create_driver info ≡ made d access
      → lookup info.id (new_dataset lib info register_dataset s).1.driver_manager
        ≡ (elim (lib.read_meta d) [ breaks msg ↦ some d | nothing ↦ none | sees x ↦ some d ])
  unfolding new_dataset register_process put_meta
  register-driver info d access s u c =
      let a = lookup-assign_self info.id d s.driver_manager in
      let b = lookup-erase_self info.id (assign info.id d s.driver_manager) in
      ground (arith, u, c, a, b)
