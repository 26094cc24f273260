-- ===== src/Bytes/RoundTrip.antt =====
-- What `ByteWriter` writes, `ByteReader` reads back.
use bit_torrent_client.Prelude.{
  ℕ, ◌+◌, ◌^◌, ◌≤◌, ◌<◌, ◌≡◌, ◌++◌, arith, Bytes, length, ltb, ok, throws, out_of_range, ◌⊎◌, inl,
  inr, Bool-cases, ltb→lt, ltb→ge, length-append, get_elem?-append, get_elem?-exists, append_assoc,
  ge→ltb,
}
use bit_torrent_client.Bytes.{
  ByteWriter, u32_bytes, write_u32, ByteReader, read_u32, from_u32_bytes,
}

-- A word of 32 bits, written behind any bytes and followed by any others, is read back whole, and
-- the cursor moves past it.
pub read_u32-write_u32 :
    (w : ByteWriter) (val : ℕ) (rest : Bytes)
    → val < 2 ^ 32
    → read_u32 (record { buffer = (write_u32 w val).bytes ++ rest; cursor = length w.bytes })
      ≡ ok (val, record { buffer = (write_u32 w val).bytes ++ rest; cursor = length w.bytes + 4 })
unfolding read_u32 write_u32
read_u32-write_u32 w val rest h =
    let b = u32_bytes val ++ rest in
    rw append_assoc (
      rw
        (
          ge→ltb (length (w.bytes ++ b)) (length w.bytes + 4)
              (omega (arith, length-append w.bytes b)),
          get_elem?-append w.bytes b (length w.bytes) 0 (omega arith),
          get_elem?-append w.bytes b (length w.bytes + 1) 1 (omega arith),
          get_elem?-append w.bytes b (length w.bytes + 2) 2 (omega arith),
          get_elem?-append w.bytes b (length w.bytes + 3) 3 (omega arith),
        )
        (ground arith))

-- The reader never reads past its buffer: it throws exactly when fewer than four bytes are left,
-- and otherwise gives a word and moves the cursor by four, within the buffer.
read_u32_bounds :
    (r : ByteReader)
    → ((length r.buffer < r.cursor + 4) × (read_u32 r ≡ throws out_of_range))
      ⊎ ((val : ℕ) × (read_u32 r ≡ ok (val, record r { cursor = r.cursor + 4 }))
          × (r.cursor + 4 ≤ length r.buffer))
unfolding read_u32
read_u32_bounds r = elim (Bool-cases (ltb (length r.buffer) (r.cursor + 4))) [
  | inl short ↦ inl (ltb→lt _ _ short, rw short)
  | inr enough ↦
      let fits = ltb→ge _ _ enough in
      let (a, ea) = get_elem?-exists r.buffer r.cursor (omega arith) in
      let (b, eb) = get_elem?-exists r.buffer (r.cursor + 1) (omega arith) in
      let (c, ec) = get_elem?-exists r.buffer (r.cursor + 2) (omega arith) in
      let (d, ed) = get_elem?-exists r.buffer (r.cursor + 3) (omega arith) in
      inr (from_u32_bytes a b c d, rw (enough, ea, eb, ec, ed), fits)
]
