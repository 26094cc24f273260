-- ===== src/Bytes.antt =====
-- src/core/utils.cpp: the big-endian writer and the bounds-checked reader of protocol messages.
pub mod RoundTrip
use bit_torrent_client.Prelude.{
  ℕ, ◌+◌, ◌*◌, ◌/◌, ◌%◌, ◌^◌, [], ◌∷◌, ◌++◌, Bytes, length, drop, get_elem?, ltb, if◌then◌else◌,
  Outcome, ok, throws, out_of_range, or_fault, ◌>>=◌,
}

pub record ByteWriter : Type 0 where
  pub bytes : Bytes

abbrev pub empty_writer : ByteWriter
empty_writer = record { bytes = [] }

-- The four bytes of a word in network order, as `htonl` lays them out.
abbrev pub u32_bytes : ℕ → Bytes
u32_bytes val = (val / 2 ^ 24 % 256) ∷ (val / 2 ^ 16 % 256) ∷ (val / 2 ^ 8 % 256) ∷ (val % 256) ∷ []

unfoldable pub write_u32 : ByteWriter → ℕ → ByteWriter
write_u32 w val = record { bytes = w.bytes ++ u32_bytes val }

unfoldable pub write_u8 : ByteWriter → ℕ → ByteWriter
write_u8 w val = record { bytes = w.bytes ++ val ∷ [] }

pub record ByteReader : Type 0 where
  pub buffer : Bytes
  pub cursor : ℕ

abbrev pub reader : Bytes → ByteReader
reader buffer = record { buffer = buffer; cursor = 0 }

-- The word that four bytes in network order stand for, as `ntohl` reads it.
abbrev pub from_u32_bytes : ℕ → ℕ → ℕ → ℕ → ℕ
from_u32_bytes a b c d = ((a * 256 + b) * 256 + c) * 256 + d

unfoldable pub read_u32 : ByteReader → Outcome (ℕ × ByteReader)
read_u32 r = if ltb (length r.buffer) (r.cursor + 4) then throws out_of_range else do
  a ← or_fault (get_elem? r.buffer r.cursor)
  b ← or_fault (get_elem? r.buffer (r.cursor + 1))
  c ← or_fault (get_elem? r.buffer (r.cursor + 2))
  d ← or_fault (get_elem? r.buffer (r.cursor + 3))
  ok (from_u32_bytes a b c d, record r { cursor = r.cursor + 4 })

unfoldable pub read_u8 : ByteReader → Outcome (ℕ × ByteReader)
read_u8 r =
    if ltb (length r.buffer) (r.cursor + 1)
    then throws out_of_range
    else do a ← or_fault (get_elem? r.buffer r.cursor); ok (a, record r { cursor = r.cursor + 1 })

unfoldable pub read_remaining : ByteReader → Bytes
read_remaining r = drop r.cursor r.buffer
