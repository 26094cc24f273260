-- ===== src/PieceManager/System/Contents.antt =====
-- What is in the file, if peers deliver whole pieces.
use bit_torrent_client.Prelude.{
  ℕ, suc, ◌-◌, ltb, ltb→lt, ltb→ge, Bool-cases, ◌+◌, ◌*◌, ◌%◌, ◌^◌, ◌<◌, ◌≤◌, ◌≡◌, ◌≢◌, inl, inr,
  refl, sym, ◌∙◌, subst, ap, true, some, arith, [], ◌∷◌, ◌++◌, Bytes, length, drop, get_elem?, set,
  ok, get_elem?-lt, get_elem?-exists, get_elem?-set_ne, length-append, append-nil,
}
use native.Mathlib.Decide.{ℕ_discrete}
use native.Mathlib.Nat.{mul-le-mul, mul-le-mul_right}
use bit_torrent_client.Metadata.{TorrentMetadata}
use bit_torrent_client.FileHandler.{FileHandler, write_at, write_piece}
use bit_torrent_client.FileHandler.Stream.{
  IsSound, stream_write-IsSound, stream_write-keeps, write_piece-written,
}
use bit_torrent_client.FileHandler.Contents.{write_at_inside, write_at_before, write_at_behind}
use bit_torrent_client.PieceManager.{PieceManager, get_piece_length, copy_into}
use bit_torrent_client.PieceManager.Invariant.{IsSupported, get_piece_length_lem}
use bit_torrent_client.PieceManager.System.{
  Step, requested, delivered, returned, Reach, here, later,
}

-- The file has, at the place of the piece, a piece of its length and with its hash.
abbrev pub IsStored : (Bytes → Bytes) → TorrentMetadata → Bytes → ℕ → Type 0
IsStored sha1 metadata contents i =
    (piece : Bytes) × (get_piece_length metadata i ≡ ok (length piece))
    × (get_elem? metadata.info.piece_hashes i ≡ some (sha1 piece))
    × ((k : ℕ)
        → k < length piece
        → get_elem? contents (i * metadata.info.piece_length + k) ≡ get_elem? piece k)

-- Every finished piece is in the file, and the stream is sound.
pub record IsFiled (sha1 : Bytes → Bytes) (pm : PieceManager) : Type 0 where
  pub sized : pm.file_handler.piece_size ≡ pm.metadata.info.piece_length
  pub sound : IsSound pm.file_handler
  pub held :
      (i : ℕ)
      → get_elem? pm.finished i ≡ some true
      → IsStored sha1 pm.metadata pm.file_handler.contents i

-- A delivery carries a whole piece. The other operations are as they are.
abbrev pub IsWhole : {sha1 : Bytes → Bytes} {pm q : PieceManager} → Step sha1 pm q → Type 0
IsWhole (requested peer found e) = Unit
IsWhole {pm = pm} (delivered idx offset new inside e) =
    (offset ≡ 0) × (get_piece_length pm.metadata idx ≡ ok (length new))
IsWhole (returned block done e) = Unit

abbrev pub AllWhole : {sha1 : Bytes → Bytes} {pm q : PieceManager} → Reach sha1 pm q → Type 0
AllWhole here = Unit
AllWhole (later r step) = AllWhole r × IsWhole step

pub IsFiled-same :
    {sha1 : Bytes → Bytes} {pm q : PieceManager}
    → q.metadata ≡ pm.metadata
    → q.file_handler ≡ pm.file_handler
    → q.finished ≡ pm.finished
    → IsFiled sha1 pm
    → IsFiled sha1 q
IsFiled-same meta file fin f = record {
  sized = rw (meta, file) f.sized;
  sound = rw file f.sound;
  held = λ i e. rw (meta, file) (f.held i (rw fin at e));
}

-- A block of the length of the piece takes the place of all its bytes.
pub copy_into-whole :
    (before new piece : Bytes)
    → piece ≡ copy_into before 0 new
    → length piece ≡ length new
    → piece ≡ new
unfolding copy_into
copy_into-whole before new piece e len = nothing_left (drop (0 + length new) before) e
  where
    nothing_left : (rest : Bytes) → piece ≡ new ++ rest → piece ≡ new
    nothing_left [] h = h ∙ append-nil new
    nothing_left (x ∷ xs) h = absurd (omega (arith, len, ap length h, length-append new (x ∷ xs)))

-- A piece that is in the file stays there when another one is written.
other-kept :
    (old new piece : Bytes) (i idx size k : ℕ)
    → i ≢ idx
    → length new ≤ size
    → length piece ≤ size
    → k < length piece
    → get_elem? old (i * size + k) ≡ get_elem? piece k
    → get_elem? (write_at old (idx * size) new) (i * size + k) ≡ get_elem? piece k
other-kept old new piece i idx size k apart le le' lt at =
    let (b, found) = get_elem?-exists piece k lt in
    let held = get_elem?-lt old (i * size + k) (at ∙ found) in
    elim (Bool-cases (ltb i idx)) [
      | inl below ↦
          let step =
            mul-le-mul_right {m = suc i} {n = idx} size (omega (arith, ltb→lt _ _ below)) in
          write_at_before old new (idx * size) (i * size + k) (omega (arith, step)) held ∙ at
      | inr above ↦
          let step =
            mul-le-mul_right {m = suc idx} {n = i} size (omega (arith, ltb→ge _ _ above)) in
          write_at_behind old new (idx * size) (i * size + k) (omega (arith, step)) ∙ at
    ]

module _ (metadata : TorrentMetadata) (s : IsSupported metadata)
    (small : metadata.info.piece_length < 2 ^ 31) where
  piece-le : (i len : ℕ) → get_piece_length metadata i ≡ ok len → len ≤ metadata.info.piece_length
  piece-le i len e =
      let (n, en, positive, le) = get_piece_length_lem metadata i s in
      let same : n ≡ len = cc (e, en) in omega (arith, same, le)

  -- The place of a piece is not too far for the stream.
  place-lt :
      (i : ℕ) → i < length metadata.info.piece_hashes → i * metadata.info.piece_length < 2 ^ 63
  place-lt i lt =
      let far =
        mul-le-mul {n₁ = i} {m₁ = metadata.info.piece_length} {n₂ = 2 ^ 32 - 1} {m₂ = 2 ^ 31 - 1}
          (omega (arith, s.few)) (omega (arith, small)) in
      omega (arith, far)

  -- A piece is written at its place, if the stream is sound, and the stream stays so.
  pub write_piece-contents :
      (fh : FileHandler) (i : ℕ) (new : Bytes) {done : FileHandler}
      → i < length metadata.info.piece_hashes
      → fh.piece_size ≡ metadata.info.piece_length
      → IsSound fh
      → write_piece fh i new ≡ ok done
      → (done.contents ≡ write_at fh.contents (i * metadata.info.piece_length) new)
        × IsSound done
        × (done.piece_size ≡ fh.piece_size)
  write_piece-contents fh i new lt size s e =
      let near = place-lt i lt in
      let place : i * fh.piece_size % 2 ^ 64 ≡ i * metadata.info.piece_length =
        rw size (omega (arith, near)) in
      let file = stream_write-IsSound fh (i * metadata.info.piece_length) new s near in
      rw (write_piece-written fh i new e, place)
        (file.0, file.1, (stream_write-keeps fh (i * metadata.info.piece_length) new).1)

  IsStored-write :
      (sha1 : Bytes → Bytes) (old new : Bytes) (idx i : ℕ)
      → get_piece_length metadata idx ≡ ok (length new)
      → idx ≢ i
      → IsStored sha1 metadata old i
      → IsStored sha1 metadata (write_at old (idx * metadata.info.piece_length) new) i
  IsStored-write sha1 old new idx i len apart (piece, sized, hash, at) = (
    piece,
    sized,
    hash,
    λ k lt.
        other-kept old new piece i idx metadata.info.piece_length k (λ e. apart (sym e))
          (piece-le idx (length new) len) (piece-le i (length piece) sized) lt (at k lt),
  )

  IsStored-new :
      (sha1 : Bytes → Bytes) (old new : Bytes) (idx : ℕ)
      → get_piece_length metadata idx ≡ ok (length new)
      → get_elem? metadata.info.piece_hashes idx ≡ some (sha1 new)
      → IsStored sha1 metadata (write_at old (idx * metadata.info.piece_length) new) idx
  IsStored-new sha1 old new idx len hash = (
    new,
    len,
    hash,
    λ k lt. write_at_inside old new (idx * metadata.info.piece_length) k _ lt refl,
  )

  -- A piece is finished and written.
  pub completed-IsFiled :
      (sha1 : Bytes → Bytes) (pm q : PieceManager) (idx : ℕ) (new : Bytes)
      → pm.metadata ≡ metadata
      → get_piece_length metadata idx ≡ ok (length new)
      → get_elem? metadata.info.piece_hashes idx ≡ some (sha1 new)
      → q.metadata ≡ pm.metadata
      → q.finished ≡ set pm.finished idx true
      → write_piece pm.file_handler idx new ≡ ok q.file_handler
      → IsFiled sha1 pm
      → IsFiled sha1 q
  completed-IsFiled sha1 pm q idx new m len hash meta fin written f =
      let size : pm.file_handler.piece_size ≡ metadata.info.piece_length =
        f.sized ∙ ap (λ (t : TorrentMetadata). t.info.piece_length) m in
      let (contents, sound, kept) =
        write_piece-contents pm.file_handler idx new
          (get_elem?-lt metadata.info.piece_hashes idx hash) size f.sound written in
      record {
        sized = rw (kept, meta, m) size;
        sound = sound;
        held = λ i e.
            rw (contents, meta, m)
              (elim (ℕ_discrete idx i) [
                | yes same ↦
                    subst
                      (λ j.
                        IsStored sha1 metadata
                          (write_at pm.file_handler.contents (idx * metadata.info.piece_length) new)
                          j)
                      same (IsStored-new sha1 pm.file_handler.contents new idx len hash)
                | no apart ↦ IsStored-write sha1 pm.file_handler.contents new idx i len apart (
                    subst (λ t. IsStored sha1 t pm.file_handler.contents i) m
                      (f.held i
                        (sym (get_elem?-set_ne pm.finished idx i true apart) ∙ rw fin at e)))
              ]);
      }
