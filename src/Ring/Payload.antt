-- ===== src/Ring/Payload.antt =====
-- `copyPayload`: the bytes that are live are what arrives, and no byte behind them.
use etcs.Base.{ℕ, ◌+◌, ◌≤◌, ◌≡◌, ap, ◌∙◌, List, length, take, length-take, length-set, arith}
use etcs.Base.Memory.{memcpy, length-memcpy, take-memcpy, take-set_above}
use etcs.Buffer.{TBuffer}
use etcs.Buffer.Bounds.{IsValid, get_or-set_self}
use etcs.Buffer.Contents.{contents}
use etcs.Ring.{copy_payload}

module _ {n : ℕ} where
  blit :
      (dest : List ℕ) (src : List ℕ) (w : ℕ)
      → length dest ≡ n
      → w ≤ n
      → w ≤ length src
      → take w (memcpy dest 0 (take w src)) ≡ take w src
  blit dest src w d h k =
      ap (λ m. take m (memcpy dest 0 (take w src))) e
      ∙ take-memcpy dest 0 (take w src) (omega (arith, e))
    where
      e : w ≡ 0 + length (take w src)
      e = omega (arith, length-take w src)

  -- A valid buffer that is copied over an array of the right size is valid, and holds the same bytes
  -- under the same offset.
  pub copy_payload_lem :
      (dest : TBuffer n) {src : TBuffer n}
      → length dest.buf ≡ n
      → IsValid src
      → IsValid (copy_payload dest src)
        × (contents (copy_payload dest src) ≡ contents src)
        × ((copy_payload dest src).read_offset ≡ src.read_offset)
  unfolding copy_payload
  copy_payload_lem dest {src} d v = ground (
    arith,
    blit dest.buf src.buf src.written d v.extent,
    blit dest.buf src.buf n d,
    length-memcpy dest.buf 0 (take src.written src.buf),
    length-memcpy dest.buf 0 (take n src.buf),
    length-set (memcpy dest.buf 0 (take src.written src.buf)) src.written 0,
    take-set_above (memcpy dest.buf 0 (take src.written src.buf)) src.written src.written 0,
    get_or-set_self (memcpy dest.buf 0 (take src.written src.buf)) src.written 0 0,
  )
