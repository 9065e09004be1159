-- ===== src/Config/Checks.antt =====
-- What settings that `Config::validate` of src/config.rs accepts satisfy.
use solx.Common.{
  ℕ, String, ◌≤◌, ◌<◌, ◌≡◌, ◌≢◌, refl, ◌⊎◌, Bool, true, false, ◌&&◌, ◌||◌, not, List, [], ◌∷◌,
  Bytes, ascii, All, length, any, Option, none, some, Result, ok, panicked, ◌>>◌, >>=-eq-ok,
  >>=-ne-panicked, fail_if, fail_if-eq-ok, ltb, leb, arith,
}
use solx.Common.Eq.{◌==◌, nat_eq, list_eq, list_beq_iff}
use solx.Config.{Config, Aliases, valid_name}
use solx.Config.Validate.{
  Url, Parsers, is_some, known_cluster, hash_parses, interval_too_short, reserved, bad_alias,
  aliases_valid, is_local, url_allowed, validate,
}
use solx.Commands.{plugin_names}
use solx.Rpc.Genesis.{expected_genesis}

fail_if-ne-panicked : (test : Bool) (message : String) → fail_if test message ≢ panicked
fail_if-ne-panicked true message e = cc
fail_if-ne-panicked false message e = cc

ok-ne-panicked {ℓ} : {A : Type ℓ} (a : A) → ok a ≢ panicked
ok-ne-panicked a e = cc

-- The chain of a check and the rest.
check_then {ℓ} :
    {B : Type ℓ} (test : Bool) (message : String) (rest : Result B)
    → rest ≢ panicked
    → (fail_if test message >> rest) ≢ panicked
check_then true message rest h e = cc
check_then false message rest h e = h e

expected_genesis-ne-panicked : (config : Config) → expected_genesis config ≢ panicked
unfolding expected_genesis
expected_genesis-ne-panicked config e = ground arith

-- The parsers of the other crates return, also on malformed text.
pub record IsParsers (parsers : Parsers) : Type 0 where
  pub url_returns : (text : Bytes) → parsers.parse_url text ≢ panicked
  pub hash_returns : (text : Bytes) → parsers.parse_hash text ≢ panicked

module _ (parsers : Parsers) (total : IsParsers parsers) where
  hash_parses-ne-panicked : (hash : Option Bytes) → hash_parses parsers hash ≢ panicked
  unfolding hash_parses
  hash_parses-ne-panicked none = ok-ne-panicked tt
  hash_parses-ne-panicked (some hash) =
      >>=-ne-panicked (parsers.parse_hash hash) _ (total.hash_returns hash)
        (λ u e. ok-ne-panicked tt)

  url_allowed-ne-panicked : (url : Option Bytes) → url_allowed parsers url ≢ panicked
  unfolding url_allowed
  url_allowed-ne-panicked none = ok-ne-panicked tt
  url_allowed-ne-panicked (some url) =
      >>=-ne-panicked (parsers.parse_url url) _ (total.url_returns url)
        (λ parsed e. check_then _ _ _ (fail_if-ne-panicked _ _))

  aliases_valid-ne-panicked : (aliases : Aliases) → aliases_valid aliases ≢ panicked
  unfolding aliases_valid
  aliases_valid-ne-panicked [] = ok-ne-panicked tt
  aliases_valid-ne-panicked (entry ∷ rest) = check_then _ _ _ (aliases_valid-ne-panicked rest)

  -- Checking settings never panics.
  pub validate-ne-panicked : (config : Config) → validate parsers config ≢ panicked
  unfolding validate
  validate-ne-panicked config e = ground (
    arith,
    expected_genesis-ne-panicked config,
    hash_parses-ne-panicked config.rpc.expected_genesis_hash,
    aliases_valid-ne-panicked config.aliases,
    url_allowed-ne-panicked config.rpc.url,
  )

-- An alias of accepted settings: a new command name, and 1 to 16 words of at most 256 bytes.
abbrev pub IsAlias : Bytes × List Bytes → Type 0
IsAlias (name, words) =
    (valid_name name ≡ true)
    × (reserved name ≡ false)
    × (any (λ command. command == name) plugin_names ≡ false)
    × (0 < length words)
    × (length words ≤ 16)
    × All (λ word. length word ≤ 256) words

words_short :
    (words : List Bytes)
    → any (λ word. ltb 256 (length word)) words ≡ false
    → All (λ word. length word ≤ 256) words
words_short [] h = tt
words_short (word ∷ rest) h = (ground arith, words_short rest (ground arith))

bad_alias-false : (entry : Bytes × List Bytes) → bad_alias entry ≡ false → IsAlias entry
unfolding bad_alias
bad_alias-false (name, words) h = (
  ground arith,
  ground arith,
  ground arith,
  ground arith,
  ground arith,
  words_short words (ground arith),
)

aliases_valid-ok : (aliases : Aliases) → aliases_valid aliases ≡ ok tt → All IsAlias aliases
unfolding aliases_valid
aliases_valid-ok [] e = tt
aliases_valid-ok (entry ∷ rest) e =
    let (_, e1, e2) = >>=-eq-ok (fail_if (bad_alias entry) _) _ e in
    (bad_alias-false entry (fail_if-eq-ok _ _ e1), aliases_valid-ok rest e2)

-- Over HTTPS or to a loopback address, and without credentials.
abbrev pub IsAllowed : Parsers → Option Bytes → Type 0
IsAllowed parsers none = Unit
IsAllowed parsers (some url) =
    (parsed : Url) × (parsers.parse_url url ≡ ok parsed)
    × ((parsed.scheme ≡ ascii "https")
        ⊎ ((parsed.scheme ≡ ascii "http") × (is_local parsed.host_str ≡ true)))
    × (parsed.username ≡ [])
    × (parsed.password ≡ none)

no_password : (password : Option Bytes) → is_some password ≡ false → password ≡ none
no_password none e = refl
no_password (some p) e = cc

no_bytes : (bytes : Bytes) → (length bytes == 0) ≡ true → bytes ≡ []
no_bytes [] e = refl
no_bytes (x ∷ bytes) e = ground arith

url_allowed-ok :
    (parsers : Parsers) (url : Option Bytes)
    → url_allowed parsers url ≡ ok tt
    → IsAllowed parsers url
unfolding url_allowed
url_allowed-ok parsers none e = tt
url_allowed-ok parsers (some url) e =
    let (parsed, e1, k1) = >>=-eq-ok (parsers.parse_url url) _ e in
    let (_, e2, e3) =
      >>=-eq-ok
        (fail_if
          (not (parsed.scheme == ascii "https")
            && not (parsed.scheme == ascii "http" && is_local parsed.host_str))
          _)
        _ k1 in
    let secure : (not (parsed.scheme == ascii "https")
          && not (parsed.scheme == ascii "http" && is_local parsed.host_str))
        ≡ false =
      fail_if-eq-ok _ _ e2 in
    let plain : (not (length parsed.username == 0) || is_some parsed.password) ≡ false =
      fail_if-eq-ok _ _ e3 in
    (
      parsed,
      e1,
      ground (
        arith,
        list_beq_iff parsed.scheme (ascii "https"),
        list_beq_iff parsed.scheme (ascii "http"),
      ),
      no_bytes parsed.username (ground arith),
      no_password parsed.password (ground arith),
    )

abbrev pub IsInterval : Option ℕ → Type 0
IsInterval none = Unit
IsInterval (some secs) = 10 ≤ secs

IsInterval-long : (secs : Option ℕ) → interval_too_short secs ≡ false → IsInterval secs
IsInterval-long none e = tt
IsInterval-long (some secs) e = ground arith

-- Everything that accepted settings promise.
pub record IsChecked (parsers : Parsers) (config : Config) : Type 0 where
  pub genesis : (hash : Bytes) × (expected_genesis config ≡ ok hash)
  pub timeout : (1 ≤ config.rpc.timeout_secs) × (config.rpc.timeout_secs ≤ 120)
  pub limit : (1 ≤ config.history.limit) × (config.history.limit ≤ 100)
  pub margin : config.security.compute_unit_margin_percent ≤ 100
  pub wallets : length config.history.wallets ≤ 16
  pub interval : IsInterval config.history.interval_secs
  pub few_aliases : length config.aliases ≤ 64
  pub good_aliases : All IsAlias config.aliases
  pub url : IsAllowed parsers config.rpc.url

-- Settings that `validate` accepts have a known genesis hash, a timeout of 1 to 120 seconds, a history
-- of 1 to 100 entries for at most 16 wallets and no interval below 10 seconds, a margin of at most
-- 100 percent, at most 64 well-formed aliases, none of them the name of a command, and an address
-- that is HTTPS or loopback HTTP without credentials.
pub validate-IsChecked :
    (parsers : Parsers) (config : Config)
    → validate parsers config ≡ ok tt
    → IsChecked parsers config
unfolding validate
validate-IsChecked parsers config e =
    let (hash, e1, k1) = >>=-eq-ok (expected_genesis config) _ e in
    let (_, _, k2) = >>=-eq-ok (fail_if (not (known_cluster config)) _) _ k1 in
    let (_, _, k3) = >>=-eq-ok (hash_parses parsers config.rpc.expected_genesis_hash) _ k2 in
    let (_, e4, k4) =
      >>=-eq-ok (fail_if (not (leb 1 config.rpc.timeout_secs && leb config.rpc.timeout_secs 120)) _)
        _ k3 in
    let (_, e5, k5) =
      >>=-eq-ok (fail_if (not (leb 1 config.history.limit && leb config.history.limit 100)) _) _
        k4 in
    let (_, e6, k6) =
      >>=-eq-ok (fail_if (ltb 100 config.security.compute_unit_margin_percent) _) _ k5 in
    let (_, e7, k7) = >>=-eq-ok (fail_if (ltb 16 (length config.history.wallets)) _) _ k6 in
    let (_, e8, k8) =
      >>=-eq-ok (fail_if (interval_too_short config.history.interval_secs) _) _ k7 in
    let (_, e9, k9) = >>=-eq-ok (fail_if (ltb 64 (length config.aliases)) _) _ k8 in
    let (_, e10, e11) = >>=-eq-ok (aliases_valid config.aliases) _ k9 in
    record {
      genesis = (hash, e1);
      timeout = bounded 1 120 config.rpc.timeout_secs (fail_if-eq-ok _ _ e4);
      limit = bounded 1 100 config.history.limit (fail_if-eq-ok _ _ e5);
      margin = at_most 100 config.security.compute_unit_margin_percent (fail_if-eq-ok _ _ e6);
      wallets = at_most 16 (length config.history.wallets) (fail_if-eq-ok _ _ e7);
      interval = IsInterval-long config.history.interval_secs (fail_if-eq-ok _ _ e8);
      few_aliases = at_most 64 (length config.aliases) (fail_if-eq-ok _ _ e9);
      good_aliases = aliases_valid-ok config.aliases e10;
      url = url_allowed-ok parsers config.rpc.url e11;
    }
  where
    bounded : (lo hi n : ℕ) → not (leb lo n && leb n hi) ≡ false → (lo ≤ n) × (n ≤ hi)
    bounded lo hi n h = ground arith

    at_most : (hi n : ℕ) → ltb hi n ≡ false → n ≤ hi
    at_most hi n h = ground arith
