-- ===== src/Handshake/Laws.antt =====
-- What a handshake carries, and which ones are accepted.
use bit_torrent_client.Prelude.{
  ℕ, zero, suc, if◌then◌else◌, ◌≤◌, ◌≡◌, ◌↔◌, refl, sym, ◌∙◌, ap, [], ◌∷◌, ◌++◌, Bool, true, false,
  arith, Bytes, bytes_eq, bytes_eq_iff, length, take, drop, ◌==◌, ==_iff, ok, length-append,
  length-take, take-append, replicate, ge→ltb,
}
use bit_torrent_client.Handshake.{protocol, handshake_len, serialize_handshake, verify_handshake}

-- The 68 bytes that are sent.
abbrev message : Bytes → Bytes → Bytes
message hash id = 0x13 ∷ (protocol ++ (replicate 8 0 ++ (hash ++ id)))

take-all : (xs : Bytes) (n : ℕ) → length xs ≡ n → take n xs ≡ xs
take-all [] zero e = refl
take-all [] (suc n) e = refl
take-all (x ∷ xs) zero e = absurd (omega arith)
take-all (x ∷ xs) (suc n) e = ap (◌∷◌ x) (take-all xs n (omega arith))

all_three :
    (a b c : Bool)
    → ((if a then if b then c else false else false) ≡ true)
      ↔ ((a ≡ true) × (b ≡ true) × (c ≡ true))
all_three true true c = ((λ h. (refl, refl, h)), (λ h. h.2))
all_three true false c = ((λ h. absurd (cc)), (λ h. absurd (cc)))
all_three false b c = ((λ h. absurd (cc)), (λ h. absurd (cc)))

verify_handshake_iff :
    (first : ℕ) (rest hash : Bytes)
    → (verify_handshake (first ∷ rest) hash ≡ true)
      ↔ ((first ≡ 19) × (take 19 rest ≡ protocol) × (take 20 (drop 27 rest) ≡ hash))
unfolding verify_handshake
verify_handshake_iff first rest hash =
    let tag = ==_iff first 19 in
    let name = bytes_eq_iff (take 19 rest) protocol in
    let digest = bytes_eq_iff (take 20 (drop 27 rest)) hash in
    let parts =
      all_three (first == 19) (bytes_eq (take 19 rest) protocol)
        (bytes_eq (take 20 (drop 27 rest)) hash) in
    (
      (λ v. let (t, n, d) = parts.0 v in (tag.0 t, name.0 n, digest.0 d)),
      (λ w. parts.1 (tag.1 w.0, name.1 w.1, digest.1 w.2)),
    )

message-verifies :
    (hash id expected : Bytes)
    → length hash ≡ 20
    → (verify_handshake (message hash id) expected ≡ true) ↔ (hash ≡ expected)
message-verifies hash id expected h =
    let body = protocol ++ (replicate 8 0 ++ (hash ++ id)) in
    let split = verify_handshake_iff 19 body expected in
    let digest : take 20 (drop 27 body) ≡ hash = take-append hash id 20 (sym h) in
    ((λ v. sym digest ∙ (split.0 v).2), (λ e. split.1 (refl, refl, digest ∙ e)))

serialize-message :
    (hash id : Bytes)
    → length hash ≡ 20
    → 20 ≤ length id
    → serialize_handshake hash id ≡ ok (message hash (take 20 id))
unfolding serialize_handshake
serialize-message hash id h i =
    rw (ge→ltb (length hash) 20 (omega arith), ge→ltb (length id) 20 i, take-all hash 20 h)

length-message :
    (hash id : Bytes) → length hash ≡ 20 → length id ≡ 20 → length (message hash id) ≡ handshake_len
length-message hash id h i = omega (arith, length-append hash id)

-- With a hash of 20 bytes and an id of at least 20, `serializeHandshake` makes a packet of 68
-- bytes, and `verifyHandshake` accepts it exactly against the hash that it was made from.
pub verify_handshake-serialize_handshake :
    (hash id expected : Bytes)
    → length hash ≡ 20
    → 20 ≤ length id
    → (packet : Bytes) × (serialize_handshake hash id ≡ ok packet)
      × (length packet ≡ handshake_len)
      × ((verify_handshake packet expected ≡ true) ↔ (hash ≡ expected))
verify_handshake-serialize_handshake hash id expected h i = (
  message hash (take 20 id),
  serialize-message hash id h i,
  length-message hash (take 20 id) h (omega (arith, length-take 20 id)),
  message-verifies hash (take 20 id) expected h,
)
