-- ===== src/Protobuf/Wire.antt =====
-- backend/protobuf/src/wire.rs: the varints of the wire format. A byte is below 256, so that
-- `byte & 0x7f` is the remainder by 128, and `byte & 0x80 == 0` says that it is below 128.
mod Varint
pub mod Fields
use offset_explorer_oxide.Common.{
  ℕ, ◌+◌, ◌*◌, ◌%◌, ◌^◌, bit_or, Option, none, some, List, [], ◌∷◌, ltb, leb, if◌then◌else◌, drop,
}
use offset_explorer_oxide.Common.Utf8.{Bytes}

-- The loop, over the bytes from its index on, with the number of bytes before them.
unfoldable pub read_loop : ℕ → ℕ → ℕ → Bytes → Option (ℕ × ℕ)
read_loop consumed shift value [] = none
read_loop consumed shift value (byte ∷ bytes) =
    let value' = bit_or value (byte % 128 * 2 ^ shift % 2 ^ 64) in
    let rest = read_loop (consumed + 1) (shift + 7) value' bytes in
    if leb 64 shift
    then none
    else if ltb byte 128
    then some (value', consumed + 1)
    else if leb 10 (consumed + 1)
    then none
    else rest

unfoldable pub read_varint : Bytes → ℕ → Option (ℕ × ℕ)
unfolding read_loop
read_varint bytes start = read_loop 0 0 0 (drop start bytes)
