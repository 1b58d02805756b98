-- ===== src/Grpc/FirstFile.antt =====
-- src/primihub/node/ds.cc and src/primihub/util/network/grpc_link_context.cc: what a client downloads.
use primihub.Prelude.{
  ℕ, zero, suc, ◌+◌, ◌-◌, ◌*◌, ◌/◌, ◌%◌, ◌≡◌, refl, sym, ap, ◌∙◌, inl, inr, Bool, true, false,
  Option, some, List, [], ◌∷◌, ◌++◌, map, append-nil, append_assoc, arith, nat_beq, nat_beq_iff,
  Bool-cases, Bytes, length, take, drop, length-drop, All, All-append, success,
}
use primihub.Grpc.{limited_package_size}
use native.Mathlib.Nat.{div-add-mod'}
use primihub.Grpc.Packages.{joined, take-append_drop, drop-drop, take_all}
use primihub.Grpc.Download.{
  DataBlock, DownloadResponse, end_flag, read_full, file_blocks, answer_loop, on_download,
  download_impl, collect_blocks, download_data,
}

abbrev block_bytes : DataBlock → Bytes
block_bytes k = k.bytes

abbrev IsInner : DataBlock → Type 0
IsInner k = k.is_last_block ≡ false

read_full-bytes :
    (n size : ℕ) (name b : Bytes)
    → joined (map block_bytes (read_full n size name b)) ++ drop (n * size) b ≡ b
unfolding read_full joined
read_full-bytes zero size name b = let e : 0 * size ≡ 0 = omega arith in rw e refl
read_full-bytes (suc n) size name b =
    let e : suc n * size ≡ size + n * size = grind arith in
    rw (e, sym (drop-drop (n * size) size b))
      (append_assoc (take size b) (joined (map block_bytes (read_full n size name (drop size b)))) _
        ∙ ap (λ (c : Bytes). take size b ++ c) (read_full-bytes n size name (drop size b))
        ∙ take-append_drop size b)

read_full-IsInner : (n size : ℕ) (name b : Bytes) → All IsInner (read_full n size name b)
unfolding read_full
read_full-IsInner zero size name b = tt
read_full-IsInner (suc n) size name b = (refl, read_full-IsInner n size name (drop size b))

nothing_left : (b : Bytes) → length b ≡ 0 → b ≡ []
nothing_left [] h = refl
nothing_left (x ∷ b) h = absurd (omega arith)

bytes_and_last :
    (ks : List DataBlock) (k : DataBlock)
    → joined (map block_bytes (ks ++ k ∷ [])) ≡ joined (map block_bytes ks) ++ k.bytes
unfolding joined
bytes_and_last [] k = append-nil k.bytes
bytes_and_last (q ∷ ks) k =
    ap (λ (b : Bytes). q.bytes ++ b) (bytes_and_last ks k)
    ∙ sym (append_assoc q.bytes (joined (map block_bytes ks)) k.bytes)

-- The blocks of a file before the flag.
file_blocks-bytes :
    (size : ℕ) (name b : Bytes)
    → (ks : List DataBlock) × (file_blocks size name b ≡ ks ++ end_flag ∷ [])
      × (joined (map block_bytes ks) ≡ b)
      × All IsInner ks
unfolding file_blocks
file_blocks-bytes size name b =
    let n = length b / size in
    let full : List DataBlock = read_full n size name b in
    let len : length (drop (n * size) b) ≡ length b % size =
      omega (arith, length-drop (n * size) b, div-add-mod' (length b) size) in
    let all = read_full-bytes n size name b in
    elim (Bool-cases (nat_beq (length b % size) 0)) [
      | inl z ↦
          let e : drop (n * size) b ≡ [] =
            nothing_left _ (omega (arith, len, (nat_beq_iff _ 0).0 z)) in
          (
            full,
            rw z refl,
            sym (append-nil _)
                ∙ ap (λ (c : Bytes). joined (map block_bytes full) ++ c) (sym e)
                ∙ all,
            read_full-IsInner n size name b,
          )
      | inr z ↦
          let last : Bytes = take (length b % size) (drop (n * size) b) in
          let k : DataBlock = record { file_name = name; bytes = last; is_last_block = false } in
          let e : last ≡ drop (n * size) b = take_all (length b % size) _ (omega (arith, len)) in
          (
            full ++ k ∷ [],
            rw z (sym (append_assoc full (k ∷ []) (end_flag ∷ []))),
            bytes_and_last full k ∙ ap (λ (c : Bytes). joined (map block_bytes full) ++ c) e ∙ all,
            All-append IsInner full (k ∷ []) (read_full-IsInner n size name b) (refl, tt),
          )
    ]

-- The answers to such blocks.
abbrev response_to : DataBlock → DownloadResponse
response_to k = record { code = success; file_name = k.file_name; bytes = k.bytes }

answer_loop-inner :
    (calm : ℕ) (ks r : List DataBlock)
    → All IsInner ks
    → answer_loop calm (ks ++ end_flag ∷ r) false ≡ some (map response_to ks)
unfolding answer_loop
answer_loop-inner calm [] r h = refl
answer_loop-inner calm (k ∷ ks) r h = ground (arith, h.0, answer_loop-inner (calm - 1) ks r h.1)

collect_blocks-response_to :
    (ks : List DataBlock) → collect_blocks (map response_to ks) ≡ (false, map block_bytes ks)
unfolding collect_blocks
collect_blocks-response_to [] = refl
collect_blocks-response_to (k ∷ ks) = rw (collect_blocks-response_to ks) refl

-- The blocks of the first file come first.
download_impl-first :
    (files : Bytes → Option Bytes) (f b : Bytes) (r : List Bytes)
    → files f ≡ some b
    → download_impl files (f ∷ r) ≡ (
      file_blocks limited_package_size f b ++ (download_impl files r).0,
      (download_impl files r).1,
    )
unfolding download_impl
download_impl-first files f b r h = rw (h, download_impl) refl

-- Of a list of files that can all be read, the client gets the first, and is told that all is well: the
-- call ends with SUCCESS, and the blocks that it has collected are that file's bytes, whatever the
-- others hold. So a list of one file is downloaded whole, and of a longer list the rest is missing.
pub download_first :
    (files : Bytes → Option Bytes) (calm : ℕ) (f b : Bytes) (r : List Bytes)
    → files f ≡ some b
    → (download_impl files r).1 ≡ false
    → (qs : List DownloadResponse) × (ks : List Bytes) × (on_download files calm (f ∷ r) ≡ some qs)
      × (download_data qs true ≡ (success, ks))
      × (joined ks ≡ b)
unfolding on_download download_data
download_first files calm f b r h e =
    let (ks, q, j, a) = file_blocks-bytes limited_package_size f b in
    (
      map response_to ks,
      map block_bytes ks,
      ap (λ (p : List DataBlock × Bool). answer_loop calm p.0 p.1)
            (download_impl-first files f b r h)
          ∙ rw (e, q)
              (ap (λ (l : List DataBlock). answer_loop calm l false)
                  (append_assoc ks (end_flag ∷ []) (download_impl files r).0)
                ∙ answer_loop-inner calm ks (download_impl files r).0 a),
      rw (collect_blocks-response_to ks) refl,
      j,
    )
