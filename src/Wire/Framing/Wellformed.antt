-- ===== src/Wire/Framing/Wellformed.antt =====
-- The streams that carry one message, as a relation: packets without the end-of-message bit, then
-- one with it, each with the length that its header announces.
use Prim.Native.Nat.{bit_and}
use haystak_tds_spi.Base.{
  ◌+◌, ◌==◌, ◌≡◌, Bool, true, false, ◌++◌, Bytes, length, take, drop, get_or,
}
use haystak_tds_spi.Go.Binary.{u16_be}

-- The header `hdr` announces a packet with this body.
pub record Announces (hdr body : Bytes) : Type 0 where
  pub size : length hdr ≡ 8
  pub length_field : u16_be (take 2 (drop 2 hdr)) ≡ 8 + length body

-- The end-of-message bit of a header is clear.
abbrev pub continues : Bytes → Bool
continues hdr = bit_and (get_or hdr 1 0) 1 == 0

pub data Packets : Bytes → Bytes → Type 0 where
  last :
      {hdr body : Bytes} → Announces hdr body → continues hdr ≡ false → Packets body (hdr ++ body)
  more :
      {hdr body payload rest : Bytes}
      → Announces hdr body
      → continues hdr ≡ true
      → Packets payload rest
      → Packets (body ++ payload) (hdr ++ (body ++ rest))
