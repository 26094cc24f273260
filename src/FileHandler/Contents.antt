-- ===== src/FileHandler/Contents.antt =====
-- What is in the file behind a write: the bytes that were written at their place, and the old ones
-- elsewhere.
use bit_torrent_client.Prelude.{
  ℕ, ◌+◌, ◌-◌, ◌≤◌, ◌<◌, ◌≡◌, ◌∙◌, ◌++◌, arith, Bytes, length, get_elem?, take, replicate,
  length-append, length-take, length-replicate, get_elem?-append, get_elem?-append_left,
  get_elem?-take, get_elem?-drop,
}
use bit_torrent_client.FileHandler.{write_at}

module _ (old new : Bytes) (at : ℕ) where
  head-length : length (take at (old ++ replicate (at - length old) 0)) ≡ at
  head-length = omega (
    arith,
    length-take at (old ++ replicate (at - length old) 0),
    length-append old (replicate (at - length old) 0),
    length-replicate {A = ℕ} (at - length old) 0,
  )

  pub write_at_inside :
      (k j : ℕ) → k < length new → j ≡ at + k → get_elem? (write_at old at new) j ≡ get_elem? new k
  unfolding write_at
  write_at_inside k j lt e =
      get_elem?-append (take at (old ++ replicate (at - length old) 0)) _ j k
        (omega (arith, head-length))
      ∙ get_elem?-append_left new _ k lt

  pub write_at_before :
      (j : ℕ) → j < at → j < length old → get_elem? (write_at old at new) j ≡ get_elem? old j
  unfolding write_at
  write_at_before j lt held =
      get_elem?-append_left (take at (old ++ replicate (at - length old) 0)) _ j
        (omega (arith, head-length))
      ∙ get_elem?-take at _ j lt
      ∙ get_elem?-append_left old _ j held

  pub write_at_behind :
      (j : ℕ) → at + length new ≤ j → get_elem? (write_at old at new) j ≡ get_elem? old j
  unfolding write_at
  write_at_behind j ge =
      get_elem?-append (take at (old ++ replicate (at - length old) 0)) _ j (j - at)
        (omega (arith, head-length))
      ∙ get_elem?-append new _ (j - at) (j - at - length new) (omega arith)
      ∙ get_elem?-drop (at + length new) old (j - at - length new) j (omega arith)
