-- ===== src/Psi/Ecdh.antt =====
-- src/primihub/kernel/psi/operator/ecdh_psi.cc: the PSI by elliptic curves. The cryptography is a library's, and
-- so are the requests, the responses and the serialization of messages: they are a parameter.
use primihub.Prelude.{
  ℕ, ◌%◌, ◌^◌, ◌≡◌, Bool, true, false, Option, none, some, List, [], ◌∷◌, ◌++◌, ltb, if◌then◌else◌,
  Bytes, length, take,
}
use primihub.Psi.Message.{htonll, read_length, read_item}
use primihub.Psi.Result.{PsiResultType, intersection, difference, difference_from, pick}

-- `ServerSetup`: the bits, and the structure that they are of.
pub data Structure : Type 0 where
  gcs : ℕ → ℕ → Structure
  bloom_filter : ℕ → Structure
  not_set : Structure

pub record ServerSetup : Type 0 where
  pub bits : Bytes
  pub structure : Structure

-- The parameters that the client sends first; the message has each, or has it not.
pub record InitParam : Type 0 where
  pub dataset_size : Option ℕ
  pub reveal_intersection : Option Bool

-- The library, with the keys of the two sides and the requests. A response is a list of elements.
pub record Library (C S Q : Type 0) : Type 0 where
  pub create_request : C → List Bytes → Q
  pub create_setup : S → ℕ → List Bytes → ServerSetup
  pub process_request : S → Q → List Bytes
  pub find_matches : C → ServerSetup → List Bytes → List ℕ
  pub put_param : InitParam → Bytes
  pub get_param : Bytes → InitParam
  pub get_put_param : (p : InitParam) → get_param (put_param p) ≡ p
  pub put_request : Q → Bytes
  pub get_request : Bytes → Q
  pub get_put_request : (q : Q) → get_request (put_request q) ≡ q
  pub put_response : List Bytes → Bytes
  pub get_response : Bytes → List Bytes
  pub get_put_response : (r : List Bytes) → get_response (put_response r) ≡ r
  pub put_setup : ServerSetup → Bytes
  pub get_setup : Bytes → ServerSetup
  pub get_put_setup : (s : ServerSetup) → get_setup (put_setup s) ≡ s

-- What a step does: it ends with a code and data, or reads memory that is not its own.
pub data Step (A : Type 0) : Type 0 where
  done : A → Step A
  failed : Step A
  over_read : Step A

-- The copy of a setup, field by field, which `ParsePsiResponseFromeString` and `GetIntersection` make;
-- `none` where the structure is not set.
unfoldable pub copy_setup : ServerSetup → Option ServerSetup
copy_setup s = elim s.structure [
  | gcs div hash_range ↦ some (record { bits = s.bits; structure = gcs div hash_range })
  | bloom_filter n ↦ some (record { bits = s.bits; structure = bloom_filter n })
  | not_set ↦ none
]

-- `PreparePSIResponse`: the message.
unfoldable pub frame : Bytes → Bytes → Bytes
frame response_str setup_info_str =
    htonll (length response_str)
    ++ (response_str ++ (htonll (length setup_info_str) ++ setup_info_str))

-- `ParseFromArray(buf, len)`, whose length is an `int`: the bytes that it reads of a part whose length is
-- `len`. A length that becomes negative is not modelled further: `none`.
unfoldable pub parsed_part : ℕ → Bytes → Option Bytes
parsed_part len s =
    let size = len % 2 ^ 32 in if ltb size (2 ^ 31) then some (take size s) else none

abbrev both_parsed : Option Bytes → Option Bytes → Option (Bytes × Bytes)
both_parsed (some a) (some b) = some (a, b)
both_parsed _ _ = none

-- The two parts of the message, read by their lengths.
unfoldable pub unframe : Bytes → Option (Bytes × Bytes)
unfolding parsed_part
unframe s = elim (read_length s) [
  | none ↦ none
  | some (n, r) ↦ elim (read_item n r) [
    | none ↦ none
    | some (response_str, q) ↦ elim (read_length q) [
      | none ↦ none
      | some (m, t) ↦ elim (read_item m t) [
        | none ↦ none
        | some (setup_info_str, u) ↦
            both_parsed (parsed_part n response_str) (parsed_part m setup_info_str)
      ]
    ]
  ]
]

-- The end of `GetIntersection`.
unfoldable pub select : PsiResultType → List Bytes → List ℕ → Step (List Bytes)
select difference origin_data index = done (difference_from 0 origin_data index)
select intersection origin_data index = elim (pick origin_data index) [
  | none ↦ over_read
  | some r ↦ done r
]

module _ {C S Q : Type 0} (lib : Library C S Q) where
  -- `BuildInitParam`, `SendInitParam` and the request of `ExecuteAsClient`: the two messages to the server.
  unfoldable pub client_messages : Bool → C → List Bytes → Step (Bytes × Bytes)
  client_messages stopped client [] = failed
  client_messages stopped client (x ∷ input) =
      if stopped
      then failed
      else done (
        lib.put_param
            (record { dataset_size = some (length (x ∷ input)); reveal_intersection = some true }),
        lib.put_request (lib.create_request client (x ∷ input)),
      )

  -- `ExecuteAsServer` at these two messages: the answer.
  unfoldable pub server_answer : Bool → S → List Bytes → Bytes → Bytes → Step Bytes
  unfolding frame
  server_answer stopped server [] m1 m2 = failed
  server_answer stopped server (y ∷ input) m1 m2 =
      let p = lib.get_param m1 in
      if stopped then failed else elim p.dataset_size [
        | none ↦ failed
        | some n ↦ elim p.reveal_intersection [
          | none ↦ failed
          | some reveal ↦ done (
              frame (lib.put_response (lib.process_request server (lib.get_request m2)))
                (lib.put_setup (lib.create_setup server n (y ∷ input))))
        ]
      ]

  -- `ParsePsiResponseFromeString` and `GetIntersection`, at the answer that has come; an empty one is a
  -- failure.
  unfoldable pub client_finish : PsiResultType → Bool → C → List Bytes → Bytes → Step (List Bytes)
  unfolding unframe copy_setup select
  client_finish type stopped client input [] = failed
  client_finish type stopped client input (b ∷ s) =
      if stopped then failed else elim (unframe (b ∷ s)) [
        | none ↦ over_read
        | some (response_str, setup_info_str) ↦ elim (copy_setup (lib.get_setup setup_info_str)) [
          | none ↦ failed
          | some setup ↦ elim (copy_setup setup) [
            | none ↦ failed
            | some again ↦
                select type input (lib.find_matches client again (lib.get_response response_str))
          ]
        ]
      ]

  -- The exchange between the two sides.
  unfoldable pub run_ecdh : PsiResultType → C → S → List Bytes → List Bytes → Step (List Bytes)
  unfolding client_messages server_answer client_finish
  run_ecdh type client server xs ys = elim (client_messages false client xs) [
    | done (m1, m2) ↦ elim (server_answer false server ys m1 m2) [
      | done m3 ↦ client_finish type false client xs m3
      | failed ↦ failed
      | over_read ↦ over_read
    ]
    | failed ↦ failed
    | over_read ↦ over_read
  ]
