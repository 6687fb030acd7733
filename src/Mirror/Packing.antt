-- ===== src/Mirror/Packing.antt =====
-- core/MirrorBuffer.h, `packConsumer`, `packProducer` and `unpack`: a half of a pair as the text of a
-- transport buffer. The pages and the pool are known by their addresses.
use etcs.Base.{
  ℕ, zero, suc, ◌-◌, Bool, true, false, not, ◌&&◌, Option, none, some, List, [], ◌∷◌, ◌++◌, ◌==◌,
  if◌then◌else◌, length,
}
use etcs.Base.Memory.{c_str}
use etcs.Buffer.{TBuffer, write, write_string, rest_as_string}
use etcs.Buffer.Tokens.{extract_string}
use etcs.Buffer.Numbers.{ℤ, pos, negsuc, extract_uint, extract_int, extract_bool}
use etcs.Buffer.Mixed.{Value, uint, int, flag, text, insert_values}

-- `WrapStageIdentity`, each name as the bytes of its buffer.
abbrev pub WrapStageIdentity : Type 0
WrapStageIdentity = List ℕ × List ℕ

-- The fields that travel, with room for `k` bytes of configuration.
pub record Half (k : ℕ) : Type 0 where
  pub is_lmax : Bool
  pub is_producer : Bool
  pub read_fd : ℤ
  pub write_fd : ℤ
  pub page : ℕ
  pub wrap_scratch_pool : ℕ
  pub pair_tag_mask : List ℕ
  pub pair_module_mask : List ℕ
  pub edge_from_rid : ℕ
  pub edge_to_rid : ℕ
  pub wrap_manifest : List WrapStageIdentity
  pub config : TBuffer k

abbrev pub stage_values : List WrapStageIdentity → List Value
stage_values [] = []
stage_values ((name, tag) ∷ stages) = text name ∷ text tag ∷ stage_values stages

abbrev pub mask_words : List ℕ → List Value
mask_words [] = []
mask_words (w ∷ ws) = uint w ∷ mask_words ws

module _ {k : ℕ} where
  -- What `packWrapManifest` writes.
  abbrev pub manifest_values : Half k → List Value
  manifest_values h = int (pos (length h.wrap_manifest)) ∷ stage_values h.wrap_manifest

  abbrev pub edge_values : Half k → List Value
  edge_values h = uint h.edge_from_rid ∷ uint h.edge_to_rid ∷ manifest_values h

  -- All that is written before the configuration, in order.
  abbrev pub half_values : Bool → Half k → List Value
  half_values is_producer h =
      flag h.is_lmax
      ∷ flag is_producer
      ∷ int h.read_fd
      ∷ int h.write_fd
      ∷ uint h.page
      ∷ uint h.wrap_scratch_pool
      ∷ (mask_words h.pair_tag_mask ++ (mask_words h.pair_module_mask ++ edge_values h))

module _ {k m : ℕ} where
  -- `left` is what a `to_chars` leaves that fails.
  unfoldable pub pack : List ℕ → Bool → TBuffer m → Half k → TBuffer m
  unfolding write
  pack left is_producer transport h =
      (write (insert_values left transport (half_values is_producer h)) h.config.buf).1

  unfoldable pub pack_consumer : List ℕ → TBuffer m → Half k → TBuffer m
  unfolding pack
  pack_consumer left = pack left false

  unfoldable pub pack_producer : List ℕ → TBuffer m → Half k → TBuffer m
  unfolding pack
  pack_producer left = pack left true

-- How often a loop up to an `int` runs.
abbrev pub rounds : ℤ → ℕ
rounds (pos count) = count
rounds (negsuc count) = 0

module _ {m : ℕ} where
  abbrev pub extract_words : List ℕ → TBuffer m → List ℕ × TBuffer m
  extract_words [] b = ([], b)
  extract_words (old ∷ olds) b =
      let (w, b') = extract_uint b old in let (ws, b'') = extract_words olds b' in (w ∷ ws, b'')

  -- The rounds of the loop of `unpackWrapManifest`, with room for so many more stages.
  abbrev pub unpack_stages : ℕ → ℕ → TBuffer m → List WrapStageIdentity × TBuffer m
  unpack_stages zero room b = ([], b)
  unpack_stages (suc count) room b =
      let (name, b1) = extract_string b in
      let (tag, b2) = extract_string b1 in
      let (stages, b3) = unpack_stages count (room - 1) b2 in
      (if room == 0 then stages else (c_str name, c_str tag) ∷ stages, b3)

  -- With `MAX_WRAP_STAGES`
  abbrev pub unpack_wrap_manifest : ℕ → TBuffer m → List WrapStageIdentity × TBuffer m
  unpack_wrap_manifest max_stages b =
      let (count, b') = extract_int b (pos 0) in unpack_stages (rounds count) max_stages b'

-- Whether a descriptor is not the -1 of none.
abbrev pub is_open : ℤ → Bool
is_open (pos fd) = true
is_open (negsuc zero) = false
is_open (negsuc (suc fd)) = true

-- The assertions of `unpack`: over the ring a page; else both descriptors and a page.
abbrev pub asserted : Bool → ℤ → ℤ → ℕ → Bool
asserted is_lmax r w page =
    if is_lmax then not (page == 0) else (is_open r && is_open w) && not (page == 0)

module _ {k m : ℕ} where
  -- What `unpack` reads, before its assertions; over the ring the descriptors are not assigned.
  abbrev pub unpack_fields : ℕ → Half k → TBuffer m → ℤ × ℤ × Half k
  unpack_fields max_stages h transport =
      let (is_lmax, t1) = extract_bool transport in
      let (is_producer, t2) = extract_bool t1 in
      let (r, t3) = extract_int t2 (negsuc 0) in
      let (w, t4) = extract_int t3 (negsuc 0) in
      let (rid_or_ptr, t5) = extract_uint t4 0 in
      let (wrap_scratch, t6) = extract_uint t5 0 in
      let (tags, t7) = extract_words h.pair_tag_mask t6 in
      let (origins, t8) = extract_words h.pair_module_mask t7 in
      let (from, t9) = extract_uint t8 h.edge_from_rid in
      let (to, t10) = extract_uint t9 h.edge_to_rid in
      let (stages, t11) = unpack_wrap_manifest max_stages t10 in
      (
        r,
        w,
        record {
          is_lmax = is_lmax;
          is_producer = is_producer;
          read_fd = if is_lmax then h.read_fd else r;
          write_fd = if is_lmax then h.write_fd else w;
          page = rid_or_ptr;
          wrap_scratch_pool = wrap_scratch;
          pair_tag_mask = tags;
          pair_module_mask = origins;
          edge_from_rid = from;
          edge_to_rid = to;
          wrap_manifest = stages;
          config = (write_string h.config (rest_as_string t11)).1;
        },
      )

  -- `unpack` up to the chain that it then resolves; `none` where an assertion fails.
  abbrev pub unpack : ℕ → Half k → TBuffer m → Option (Half k)
  unpack max_stages h transport =
      let (r, w, h') = unpack_fields max_stages h transport in
      if asserted h'.is_lmax r w h'.page then some h' else none
