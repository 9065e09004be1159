-- ===== src/Vault/Header/RoundTrip.antt =====
-- The header is read back, and every accepted header is one that `encode` writes.
use solx.Common.{
  Bool, ℕ, ◌+◌, ◌≤◌, ◌≡◌, ◌≢◌, refl, ap, ◌∙◌, ◌∷◌, ◌++◌, Bytes, IsByte, All, length, take, drop,
  take_exact, drop_exact, length-take, length-drop, take-append-drop, drop-drop, get_elem?-lt,
  index, to_le_bytes, from_le_bytes, ok, panicked, fail_if, >>=-eq-ok, fail_if-eq-ok, not, ◌||◌,
  ltb, ◌==◌, arith, le→leb, ge→ltb, append_assoc, length-append,
}
use solx.Common.Eq.{list_beq}
use solx.Kdf.{Argon2idParams, from_costs, vault_params}
use solx.Vault.Header.{lacks_magic, version, EnvelopeHeader, parse, encode, header_len, max_file}

pub record IsHeader (h : EnvelopeHeader) : Type 0 where
  pub profile : h.params ≡ vault_params
  pub salt_len : length h.salt ≡ 16
  pub nonce_len : length h.nonce ≡ 12

-- The first 20 bytes: magic, version, KDF identifiers and the costs of the only profile.
abbrev too_short : Bytes → Bool
too_short bytes = ltb (length bytes) (header_len + 16) || ltb max_file (length bytes)

abbrev prefix : Bytes → Bytes
prefix body =
    83 ∷ 79 ∷ 76 ∷ 88 ∷ 5 ∷ 1 ∷ 19 ∷ 0 ∷ 0 ∷ 0 ∷ 1 ∷ 0 ∷ 3 ∷ 0 ∷ 0 ∷ 0 ∷ 4 ∷ 0 ∷ 0 ∷ 0 ∷ body

parse-prefix :
    (body : Bytes)
    → 44 ≤ length body
    → length body + 20 ≤ max_file
    → parse (prefix body)
      ≡ ok (record { params = vault_params; salt = take 16 body; nonce = take 12 (drop 16 body) })
unfolding parse from_costs from_le_bytes list_beq
parse-prefix body lo hi = rw (
  ge→ltb (length (prefix body)) 5 (omega arith),
  le→leb 4 (length (prefix body)) (omega arith),
  ge→ltb (length (prefix body)) 64 (omega arith),
  ge→ltb max_file (length (prefix body)) (omega arith),
  le→leb 12 (length (prefix body)) (omega arith),
  le→leb 16 (length (prefix body)) (omega arith),
  le→leb 20 (length (prefix body)) (omega arith),
  le→leb 36 (length (prefix body)) (omega arith),
  le→leb 48 (length (prefix body)) (omega arith),
)

encode-prefix :
    (params : Argon2idParams) (salt nonce : Bytes)
    → params ≡ vault_params
    → encode (record { params = params; salt = salt; nonce = nonce }) ≡ prefix (salt ++ nonce)
unfolding encode to_le_bytes
encode-prefix params salt nonce e = rw e

pub length-encode : (h : EnvelopeHeader) → IsHeader h → length (encode h) ≡ header_len
length-encode h v =
    ap length (encode-prefix h.params h.salt h.nonce v.profile)
    ∙ omega (arith, v.salt_len, v.nonce_len, length-append h.salt h.nonce)

-- `parse` reads back the header that `encode` wrote, whatever ciphertext follows it, if the whole
-- is within the bounds on a vault file.
pub parse-encode :
    (h : EnvelopeHeader) (rest : Bytes)
    → IsHeader h
    → 16 ≤ length rest
    → header_len + length rest ≤ max_file
    → parse (encode h ++ rest) ≡ ok h
parse-encode h rest v lo hi =
    let body = h.salt ++ h.nonce ++ rest in
    let size : length body ≡ 28 + length rest = omega (
      arith,
      v.salt_len,
      v.nonce_len,
      length-append (h.salt ++ h.nonce) rest,
      length-append h.salt h.nonce,
    ) in
    rw (ap (λ (l : Bytes). l ++ rest) (encode-prefix h.params h.salt h.nonce v.profile)) (
      parse-prefix body (omega arith) (omega arith)
      ∙ rw (
        append_assoc h.salt h.nonce rest,
        take_exact 16 h.salt (h.nonce ++ rest) v.salt_len,
        drop_exact 16 h.salt (h.nonce ++ rest) v.salt_len,
        take_exact 12 h.nonce rest v.nonce_len,
        ← v.profile,
      ))

pub parse-length :
    (bytes : Bytes) (h : EnvelopeHeader)
    → parse bytes ≡ ok h
    → (64 ≤ length bytes) × (length bytes ≤ max_file)
unfolding parse
parse-length bytes h e =
    let (bad, _, e1) = >>=-eq-ok (lacks_magic bytes) _ e in
    let (_, _, e2) = >>=-eq-ok (fail_if bad _) _ e1 in
    let (format, _, e3) = >>=-eq-ok (index bytes 4) _ e2 in
    let (_, _, e4) = >>=-eq-ok (fail_if (not (format == version)) _) _ e3 in
    let (_, short, _) = >>=-eq-ok (fail_if (too_short bytes) _) _ e4 in
    ground (arith, fail_if-eq-ok (too_short bytes) _ short)

prefix_bytes :
    (x0 x1 x2 x3 x4 x5 x6 x7 x8 x9 x10 x11 x12 x13 x14 x15 x16 x17 x18 x19 : ℕ) (body : Bytes)
    (h : EnvelopeHeader)
    → 44 ≤ length body
    → length body + 20 ≤ max_file
    → All IsByte (
        x0 ∷ x1 ∷ x2 ∷ x3 ∷ x4 ∷ x5 ∷ x6 ∷ x7 ∷ x8 ∷ x9 ∷ x10 ∷ x11 ∷ x12 ∷ x13 ∷ x14 ∷ x15 ∷ x16
        ∷ x17 ∷ x18 ∷ x19 ∷ body)
    → parse (
        x0 ∷ x1 ∷ x2 ∷ x3 ∷ x4 ∷ x5 ∷ x6 ∷ x7 ∷ x8 ∷ x9 ∷ x10 ∷ x11 ∷ x12 ∷ x13 ∷ x14 ∷ x15 ∷ x16
        ∷ x17 ∷ x18 ∷ x19 ∷ body)
      ≡ ok h
    → x0 ∷ x1 ∷ x2 ∷ x3 ∷ x4 ∷ x5 ∷ x6 ∷ x7 ∷ x8 ∷ x9 ∷ x10 ∷ x11 ∷ x12 ∷ x13 ∷ x14 ∷ x15 ∷ x16
        ∷ x17 ∷ x18 ∷ x19 ∷ body
      ≡ prefix body
unfolding parse from_costs from_le_bytes list_beq
prefix_bytes x0 x1 x2 x3 x4 x5 x6 x7 x8 x9 x10 x11 x12 x13 x14 x15 x16 x17 x18 x19 body h lo hi
      small e =
    let bytes : Bytes =
      x0 ∷ x1 ∷ x2 ∷ x3 ∷ x4 ∷ x5 ∷ x6 ∷ x7 ∷ x8 ∷ x9 ∷ x10 ∷ x11 ∷ x12 ∷ x13 ∷ x14 ∷ x15 ∷ x16
      ∷ x17 ∷ x18 ∷ x19 ∷ body in
    let read =
      rw
        (
          ge→ltb (length bytes) 5 (omega arith),
          le→leb 4 (length bytes) (omega arith),
          ge→ltb (length bytes) 64 (omega arith),
          ge→ltb max_file (length bytes) (omega arith),
          le→leb 12 (length bytes) (omega arith),
          le→leb 16 (length bytes) (omega arith),
          le→leb 20 (length bytes) (omega arith),
          le→leb 36 (length bytes) (omega arith),
          le→leb 48 (length bytes) (omega arith),
        )
        at e in
    ground arith

accepted_prefix :
    (bytes : Bytes) (h : EnvelopeHeader)
    → All IsByte bytes
    → parse bytes ≡ ok h
    → (body : Bytes) × (bytes ≡ prefix body) × (44 ≤ length body) × (length body + 20 ≤ max_file)
accepted_prefix
      (x0 ∷ x1 ∷ x2 ∷ x3 ∷ x4 ∷ x5 ∷ x6 ∷ x7 ∷ x8 ∷ x9 ∷ x10 ∷ x11 ∷ x12 ∷ x13 ∷ x14 ∷ x15 ∷ x16
        ∷ x17 ∷ x18 ∷ x19 ∷ body)
      h small e =
    let (lo, hi) = parse-length _ h e in
    (
      body,
      prefix_bytes x0 x1 x2 x3 x4 x5 x6 x7 x8 x9 x10 x11 x12 x13 x14 x15 x16 x17 x18 x19 body h
          (omega arith) (omega arith) small e,
      omega arith,
      omega arith,
    )
accepted_prefix _ h small e = absurd (omega (arith, parse-length _ h e))

abbrev header_of : Bytes → EnvelopeHeader
header_of body = record {
  params = vault_params;
  salt = take 16 body;
  nonce = take 12 (drop 16 body);
}

header_of-IsHeader : (body : Bytes) → 44 ≤ length body → IsHeader (header_of body)
header_of-IsHeader body lo = record {
  profile = refl;
  salt_len = omega (arith, length-take 16 body);
  nonce_len = omega (arith, length-take 12 (drop 16 body), length-drop 16 body);
}

encode-header_of : (body : Bytes) → encode (header_of body) ++ drop 28 body ≡ prefix body
encode-header_of body =
    rw (encode-prefix vault_params (take 16 body) (take 12 (drop 16 body)) refl)
      (ap prefix (append_assoc (take 16 body) (take 12 (drop 16 body)) (drop 28 body) ∙ rest))
  where
    inner : take 12 (drop 16 body) ++ drop 28 body ≡ drop 16 body
    inner = rw (← drop-drop 16 12 body) (take-append-drop 12 (drop 16 body))

    rest : take 16 body ++ (take 12 (drop 16 body) ++ drop 28 body) ≡ body
    rest = rw inner (take-append-drop 16 body)

canonical :
    (bytes body : Bytes) (h : EnvelopeHeader)
    → bytes ≡ prefix body
    → 44 ≤ length body
    → h ≡ header_of body
    → IsHeader h × (encode h ++ drop header_len bytes ≡ bytes)
canonical bytes body h split lo shape =
    rw (shape, split) (header_of-IsHeader body lo, encode-header_of body)

-- Only canonical headers are accepted: a file that `parse` takes begins with exactly the 48 bytes
-- that `encode` writes for the header it returns, which has the one profile and full salt and nonce.
pub encode-parse :
    (bytes : Bytes) (h : EnvelopeHeader)
    → All IsByte bytes
    → parse bytes ≡ ok h
    → IsHeader h × (encode h ++ drop header_len bytes ≡ bytes)
encode-parse bytes h small e =
    let (body, split, lo, hi) = accepted_prefix bytes h small e in
    let read : parse (prefix body) ≡ ok h = rw split at e in
    canonical bytes body h split lo (cc (read, parse-prefix body lo hi))

-- Whatever the file holds, reading its header does not panic.
pub parse-ne-panicked : (bytes : Bytes) → parse bytes ≢ panicked
unfolding parse from_costs
parse-ne-panicked bytes e =
    ground (
      arith,
      get_elem?-lt bytes 4,
      get_elem?-lt bytes 5,
      get_elem?-lt bytes 6,
      get_elem?-lt bytes 7,
    )
