-- ===== src/Mirror/Copies.antt =====
-- core/MirrorBuffer.h, a half that is packed and unpacked is the same half.
use etcs.Base.{
  ℕ, ◌+◌, ◌-◌, ◌<◌, ◌≤◌, ◌≡◌, refl, sym, ap, ap₂, subst, ◌∙◌, Bool, true, some, none, List, [], ◌∷◌,
  ◌++◌, ◌==◌, if◌then◌else◌, length, set, arith, length-set, length-take, Bool-cases, inl, inr,
}
use etcs.Base.Memory.{c_str, strlen, take-memcpy, length-memcpy, take-set_above, memcpy}
use etcs.Buffer.{TBuffer, write, write_string, write_string_len, rest_as_string, reset}
use etcs.Buffer.Bounds.{IsValid, strlen-le, get_or-set_self}
use etcs.Buffer.Contents.{contents, drop-append, length-contents}
use etcs.Buffer.Tokens.{unread}
use etcs.Buffer.RoundTrip.{Starts}
use etcs.Buffer.Mixed.{uint, int, flag, encode_values, AllInRange, insert_values, insert_values_lem}
use etcs.Buffer.Numbers.{ℤ, pos, negsuc, extract_int, extract_bool, extract_uint}
use etcs.Buffer.Reading.{Taken}
use etcs.Mirror.Packing.{
  Half, mask_words, stage_values, manifest_values, edge_values, half_values, pack, rounds,
  extract_words, unpack_stages, unpack_wrap_manifest, unpack, unpack_fields, asserted,
}
use etcs.Mirror.Unpacked.{AreNames, next_uint, next_int, next_flag, words_lem, stages_lem}
use etcs.Mirror.Receiving.{slice, drop-nothing}

length-c_str : (s : List ℕ) → length (c_str s) ≡ strlen s
length-c_str s = omega (arith, length-take (strlen s) s, strlen-le s)

c_str_twice : (s : List ℕ) → c_str (c_str s) ≡ c_str s
c_str_twice [] = refl
c_str_twice (c ∷ s) = elim (Bool-cases (c == 0)) [
  | inl e ↦ rw e refl
  | inr e ↦ rw (e, e) (ap (◌∷◌ c) (c_str_twice s))
]

module _ {n : ℕ} where
  -- A C string goes behind what there is, where there is room for it and its terminator.
  write_lem :
      {b : TBuffer n} (s : List ℕ)
      → IsValid b
      → b.written + strlen s + 1 ≤ n
      → IsValid (write b s).1 × (unread (write b s).1 ≡ unread b ++ c_str s)
  unfolding write write_string_len
  write_lem {b} s v h = ground (
    arith,
    v,
    length-c_str s,
    length-memcpy b.buf b.written (c_str s),
    length-set (memcpy b.buf b.written (c_str s)) (b.written + strlen s) 0,
    get_or-set_self (memcpy b.buf b.written (c_str s)) (b.written + strlen s) 0 0,
    take-memcpy b.buf b.written (c_str s),
    take-set_above (memcpy b.buf b.written (c_str s)) (b.written + strlen s) (b.written + strlen s)
        0,
    drop-append b.read_offset (contents b) (c_str s),
    length-contents v,
  )

  write_string_lem :
      {b : TBuffer n} (s : List ℕ)
      → IsValid b
      → strlen s + 1 ≤ n
      → contents (write_string b s).1 ≡ c_str s
  unfolding write_string reset
  write_string_lem {b} s v h = ground (
    arith,
    v,
    length-c_str s,
    length-set b.buf 0 0,
    take-memcpy (set b.buf 0 0) 0 (c_str s),
    take-set_above (memcpy (set b.buf 0 0) 0 (c_str s)) (strlen s) (strlen s) 0,
  )

  rest_as_string_lem : {b : TBuffer n} → IsValid b → rest_as_string b ≡ unread b
  unfolding rest_as_string
  rest_as_string_lem {b} v = ground (
    arith,
    v,
    slice b.read_offset (b.written - b.read_offset) b.buf,
    drop-nothing b.read_offset b.written b.buf,
  )

-- What a half must be for its text to say all of it, and the transport and the half that it is
-- unpacked into.
pub record IsPackable {k m : ℕ} (max_stages : ℕ) (is_producer : Bool) (h old : Half k)
    (transport : TBuffer m) : Type 0 where
  pub valid : IsValid transport
  pub nothing : unread transport ≡ []
  pub room :
      transport.written
        + length (encode_values (half_values is_producer h))
        + strlen h.config.buf
        + 2
      < m
  pub range : AllInRange (half_values is_producer h)
  pub names : AreNames h.wrap_manifest
  pub few : length h.wrap_manifest ≤ max_stages
  pub tags : length old.pair_tag_mask ≡ length h.pair_tag_mask
  pub origins : length old.pair_module_mask ≡ length h.pair_module_mask
  pub config_text : contents h.config ≡ c_str h.config.buf
  pub config_room : strlen h.config.buf + 1 ≤ k
  pub config_front : Starts (c_str h.config.buf)
  pub config_valid : IsValid old.config
  pub endpoints : asserted h.is_lmax h.read_fd h.write_fd h.page ≡ true

-- What travels is as it was; the half is the producer's or the consumer's as it was packed; over the
-- ring the descriptors stay what they were.
pub record IsCopy {k : ℕ} (is_producer : Bool) (h old h' : Half k) : Type 0 where
  pub is_lmax : h'.is_lmax ≡ h.is_lmax
  pub side : h'.is_producer ≡ is_producer
  pub read_fd : h'.read_fd ≡ (if h.is_lmax then old.read_fd else h.read_fd)
  pub write_fd : h'.write_fd ≡ (if h.is_lmax then old.write_fd else h.write_fd)
  pub page : h'.page ≡ h.page
  pub wrap_scratch_pool : h'.wrap_scratch_pool ≡ h.wrap_scratch_pool
  pub pair_tag_mask : h'.pair_tag_mask ≡ h.pair_tag_mask
  pub pair_module_mask : h'.pair_module_mask ≡ h.pair_module_mask
  pub edge_from_rid : h'.edge_from_rid ≡ h.edge_from_rid
  pub edge_to_rid : h'.edge_to_rid ≡ h.edge_to_rid
  pub wrap_manifest : h'.wrap_manifest ≡ h.wrap_manifest
  pub config : contents h'.config ≡ contents h.config

module _ {k m : ℕ} (left : List ℕ) (max_stages : ℕ) (is_producer : Bool) (h old : Half k)
    (transport : TBuffer m) (p : IsPackable max_stages is_producer h old transport) where
  packed :
      IsValid (pack left is_producer transport h)
      × (unread (pack left is_producer transport h)
          ≡ encode_values (half_values is_producer h) ++ c_str h.config.buf)
  unfolding pack
  packed =
      let vs = half_values is_producer h in
      let i = insert_values_lem left vs transport p.valid (omega (arith, p.room)) in
      let w =
        write_lem {b = insert_values left transport vs} h.config.buf i.0
          (omega (arith, i.2, p.room)) in
      (
        w.0,
        w.1 ∙ ap (λ t. t ++ c_str h.config.buf) (i.1 ∙ ap (λ t. t ++ encode_values vs) p.nothing),
      )

  manifest_lem :
      (b : TBuffer m)
      → AllInRange (manifest_values h)
      → IsValid b
      → unread b ≡ encode_values (manifest_values h) ++ c_str h.config.buf
      → Taken h.wrap_manifest (c_str h.config.buf) (unpack_wrap_manifest max_stages b)
  manifest_lem b a valid e =
      let c = c_str h.config.buf in
      let st = p.config_front in
      let count = pos (length h.wrap_manifest) in
      let u = next_int c st (pos 0) count (stage_values h.wrap_manifest) a valid e in
      let b' = (extract_int b (pos 0)).1 in
      subst (Taken h.wrap_manifest c) (ap (λ z. unpack_stages (rounds z) max_stages b') (sym u.0))
        (stages_lem c st h.wrap_manifest max_stages b' p.few p.names a.1 u.2 u.1)

  config_lem :
      (b : TBuffer m)
      → IsValid b
      → unread b ≡ c_str h.config.buf
      → contents (write_string old.config (rest_as_string b)).1 ≡ contents h.config
  config_lem b valid e =
      let text = rest_as_string_lem valid ∙ e in
      let size : strlen (c_str h.config.buf) + 1 ≤ k =
        omega (arith, strlen-le (c_str h.config.buf), length-c_str h.config.buf, p.config_room) in
      ap (λ s. contents (write_string old.config s).1) text
      ∙ write_string_lem (c_str h.config.buf) p.config_valid size
      ∙ c_str_twice h.config.buf
      ∙ sym p.config_text

  fields_lem :
      let (r, w, h') = unpack_fields max_stages old (pack left is_producer transport h) in
      IsCopy is_producer h old h' × (r ≡ h.read_fd) × (w ≡ h.write_fd)
  fields_lem =
      let c = c_str h.config.buf in
      let st = p.config_front in
      let a = p.range in
      let later = mask_words h.pair_module_mask ++ edge_values h in
      let s0 = mask_words h.pair_tag_mask ++ later in
      let s1 = uint h.wrap_scratch_pool ∷ s0 in
      let s2 = uint h.page ∷ s1 in
      let s3 = int h.write_fd ∷ s2 in
      let s4 = int h.read_fd ∷ s3 in
      let s5 = flag is_producer ∷ s4 in
      let u1 = next_flag c st h.is_lmax s5 a packed.0 packed.1 in
      let u2 = next_flag c st is_producer s4 a.1 u1.2 u1.1 in
      let u3 = next_int c st (negsuc 0) h.read_fd s3 a.1.1 u2.2 u2.1 in
      let u4 = next_int c st (negsuc 0) h.write_fd s2 a.1.1.1 u3.2 u3.1 in
      let u5 = next_uint c st 0 h.page s1 a.1.1.1.1 u4.2 u4.1 in
      let u6 = next_uint c st 0 h.wrap_scratch_pool s0 a.1.1.1.1.1 u5.2 u5.1 in
      let t6 =
        extract_uint
          (extract_uint
            (extract_int
              (extract_int (extract_bool (extract_bool (pack left is_producer transport h)).1).1
                (negsuc 0)).1
              (negsuc 0)).1
            0).1
          0 in
      let w7 =
        words_lem c st old.pair_tag_mask h.pair_tag_mask later t6.1 p.tags a.1.1.1.1.1.1 u6.2
          u6.1 in
      let t7 = extract_words old.pair_tag_mask t6.1 in
      let w8 =
        words_lem c st old.pair_module_mask h.pair_module_mask (edge_values h) t7.1 p.origins w7.1
          w7.0.2 w7.0.1 in
      let t8 = extract_words old.pair_module_mask t7.1 in
      let t9 = extract_uint t8.1 old.edge_from_rid in
      let t10 = extract_uint t9.1 old.edge_to_rid in
      let u9 =
        next_uint c st old.edge_from_rid h.edge_from_rid (uint h.edge_to_rid ∷ manifest_values h)
          w8.1 w8.0.2 w8.0.1 in
      let u10 = next_uint c st old.edge_to_rid h.edge_to_rid (manifest_values h) w8.1.1 u9.2 u9.1 in
      let tail = manifest_lem t10.1 w8.1.1.1 u10.2 u10.1 in
      (
        record {
          is_lmax = u1.0;
          side = u2.0;
          read_fd = ap₂ (λ b r. if b then old.read_fd else r) u1.0 u3.0;
          write_fd = ap₂ (λ b r. if b then old.write_fd else r) u1.0 u4.0;
          page = u5.0;
          wrap_scratch_pool = u6.0;
          pair_tag_mask = w7.0.0;
          pair_module_mask = w8.0.0;
          edge_from_rid = u9.0;
          edge_to_rid = u10.0;
          wrap_manifest = tail.0;
          config = config_lem (unpack_wrap_manifest max_stages t10.1).1 tail.2 tail.1;
        },
        u3.0,
        u4.0,
      )

  -- A half that is packed, as the producer's or as the consumer's, is unpacked to a half that agrees
  -- with it in every field that travels; where what `unpack` asserts holds of it, which is a page
  -- over the ring and else a page and both descriptors, the transport has nothing unread and room
  -- for the text, the numbers fit their types, names and configuration hold no zero byte, the
  -- manifest has at most the stages that a half can hold, the masks have the same words, and the
  -- configuration does not begin with a blank or a comma.
  pub unpack-pack :
      (h' : Half k) × (unpack max_stages old (pack left is_producer transport h) ≡ some h')
      × IsCopy is_producer h old h'
  unpack-pack =
      let (r, w, h') = unpack_fields max_stages old (pack left is_producer transport h) in
      let (copy, same_r, same_w) = fields_lem in
      let holds : asserted h'.is_lmax r w h'.page ≡ true =
        ap₂ (λ (l : Bool) (page : ℕ). asserted l r w page) copy.is_lmax copy.page
        ∙ ap₂ (λ (x y : ℤ). asserted h.is_lmax x y h.page) same_r same_w
        ∙ p.endpoints in
      (h', ap (λ (b : Bool). if b then some h' else none) holds, copy)
