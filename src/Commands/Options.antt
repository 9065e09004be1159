-- ===== src/Commands/Options.antt =====
-- `Options` of src/commands.rs: the `--key value` pairs of a command.
use solx.Common.{
  ◌≡◌, ok_inj, err-ne-ok, Bool-cases, refl, sym, ◌∙◌, ap, ◌↔◌, inl, inr, Bool, true, false, not,
  ◌||◌, List, [], ◌∷◌, ◌++◌, append-nil, append_assoc, Option, none, some, Bytes, ascii, any,
  Result, ok, err, ◌>>=◌, ◌>>◌, fail_if, ok_or, if◌then◌else◌, arith, >>=-eq-ok, fail_if-eq-ok,
  ok_or-eq-ok,
}
use solx.Common.Eq.{◌==◌, nat_eq, list_eq, beq-cases, beq_refl}
use mathlib.Core.Option.{none-ne-some, some-injective}
use solx.Common.Text.{starts_with, strip_dashes}

abbrev pub Options : Type 0
Options = List (Bytes × Bytes)

abbrev pub has_key : Options → Bytes → Bool
has_key [] key = false
has_key ((existing, value) ∷ values) key = existing == key || has_key values key

-- The key of a word, which is allowed and new.
unfoldable pub read_key : List Bytes → Options → Bytes → Result Bytes
unfolding strip_dashes
read_key allowed values word = do
  key ← ok_or (strip_dashes word) "expected --option; use 'help'"
  fail_if (not (any (λ name. name == key) allowed)) "unknown option"
  fail_if (has_key values key) "duplicate option"
  ok key

-- The loop over the words, after the values read before.
unfoldable pub parse_from : List Bytes → Options → List Bytes → Result Options
unfolding starts_with read_key
parse_from allowed values [] = ok values
parse_from allowed values (word ∷ []) = do
  key ← read_key allowed values word
  err "missing option value"
parse_from allowed values (word ∷ value ∷ words) = do
  key ← read_key allowed values word
  fail_if (starts_with value (ascii "--")) "missing option value"
  parse_from allowed (values ++ (key, value) ∷ []) words

unfoldable pub parse_options : List Bytes → List Bytes → Result Options
unfolding parse_from
parse_options args allowed = parse_from allowed [] args

abbrev pub get_option : Options → Bytes → Option Bytes
get_option [] name = none
get_option ((key, value) ∷ values) name = if key == name then some value else get_option values name

-- The words of the pairs.
abbrev pub to_args : Options → List Bytes
to_args [] = []
to_args ((key, value) ∷ values) = (ascii "--" ++ key) ∷ value ∷ to_args values

-- A pair that may follow the pairs before it.
pub record IsOption (allowed : List Bytes) (before : Options) (pair : Bytes × Bytes) : Type 0 where
  pub known : any (λ name. name == pair.0) allowed ≡ true
  pub new : has_key before pair.0 ≡ false
  pub given : starts_with pair.1 (ascii "--") ≡ false

abbrev pub IsOptions : List Bytes → Options → Options → Type 0
IsOptions allowed before [] = Unit
IsOptions allowed before (pair ∷ values) =
    IsOption allowed before pair × IsOptions allowed (before ++ pair ∷ []) values

read_key-dashes :
    (allowed : List Bytes) (before : Options) (key value : Bytes)
    → IsOption allowed before (key, value)
    → read_key allowed before (ascii "--" ++ key) ≡ ok key
unfolding read_key
read_key-dashes allowed before key value valid = rw (valid.known, valid.new)

parse_from-to_args :
    (allowed : List Bytes) (before values : Options)
    → IsOptions allowed before values
    → parse_from allowed before (to_args values) ≡ ok (before ++ values)
unfolding parse_from
parse_from-to_args allowed before [] valid = rw append-nil
parse_from-to_args allowed before ((key, value) ∷ values) (valid, rest) =
    rw (read_key-dashes allowed before key value valid, valid.given)
      (parse_from-to_args allowed (before ++ (key, value) ∷ []) values rest
        ∙ ap ok (append_assoc before ((key, value) ∷ []) values))

strip_dashes-eq :
    (word : Bytes) {key : Bytes} → strip_dashes word ≡ some key → word ≡ ascii "--" ++ key
unfolding strip_dashes starts_with
strip_dashes-eq [] e = cc
strip_dashes-eq (a ∷ []) e = ground arith
strip_dashes-eq (a ∷ b ∷ word) e = elim (beq-cases a 45) [
  | inr (ne, other) ↦ absurd (none-ne-some _ (rw other at e))
  | inl (same, ta) ↦ elim (beq-cases b 45) [
    | inr (ne, other) ↦ absurd (none-ne-some _ (rw (ta, other) at e))
    | inl (also, tb) ↦
        rw (same, also) (ap (λ k. 45 ∷ 45 ∷ k) (some-injective _ _ (rw (ta, tb) at e)))
  ]
]

two_checks :
    (known used : Bool) (key : Bytes) {result : Bytes}
    → (fail_if (not known) "unknown option" >> (fail_if used "duplicate option" >> ok key))
      ≡ ok result
    → (key ≡ result) × (known ≡ true) × (used ≡ false)
two_checks true false key e = (ok_inj e, refl, refl)
two_checks true true key e = absurd (err-ne-ok e)
two_checks false used key e = absurd (err-ne-ok e)

read_key-eq-ok :
    (allowed : List Bytes) (before : Options) (word : Bytes) {key : Bytes}
    → read_key allowed before word ≡ ok key
    → (word ≡ ascii "--" ++ key)
      × (any (λ name. name == key) allowed ≡ true)
      × (has_key before key ≡ false)
unfolding read_key
read_key-eq-ok allowed before word e =
    let (key, e1, k1) = >>=-eq-ok (ok_or (strip_dashes word) _) _ e in
    let (same, known, new) =
      two_checks (any (λ name. name == key) allowed) (has_key before key) key k1 in
    (
      rw (← same) (strip_dashes-eq word (ok_or-eq-ok (strip_dashes word) _ e1)),
      rw (← same) known,
      rw (← same) new,
    )

-- The options that were read from some words.
abbrev pub Reads : List Bytes → Options → List Bytes → Options → Type 0
Reads allowed before args result =
    (values : Options) × (result ≡ before ++ values)
    × (args ≡ to_args values)
    × IsOptions allowed before values

Reads-pair :
    (allowed : List Bytes) (before : Options) (word key value : Bytes) (args : List Bytes)
    {result : Options}
    → word ≡ ascii "--" ++ key
    → IsOption allowed before (key, value)
    → Reads allowed (before ++ (key, value) ∷ []) args result
    → Reads allowed before (word ∷ value ∷ args) result
Reads-pair allowed before word key value args shape pair (values, same, words, valid) = (
  (key, value) ∷ values,
  same ∙ append_assoc before ((key, value) ∷ []) values,
  rw (shape, words),
  (pair, valid),
)

parse_from-eq-ok :
    (allowed : List Bytes) (before : Options) (args : List Bytes) {result : Options}
    → parse_from allowed before args ≡ ok result
    → Reads allowed before args result
unfolding parse_from
parse_from-eq-ok allowed before [] e = ([], ok_inj (sym e) ∙ sym (append-nil before), refl, tt)
parse_from-eq-ok allowed before (word ∷ []) e =
    let (key, read, rest) =
      >>=-eq-ok (read_key allowed before word) (λ key. err "missing option value") e in
    absurd (err-ne-ok rest)
parse_from-eq-ok allowed before (word ∷ value ∷ args) e =
    let (key, read, rest) =
      >>=-eq-ok (read_key allowed before word)
        (λ key.
          fail_if (starts_with value (ascii "--")) "missing option value"
          >> parse_from allowed (before ++ (key, value) ∷ []) args)
        e in
    let (checked, given, more) =
      >>=-eq-ok (fail_if (starts_with value (ascii "--")) "missing option value")
        (λ done. parse_from allowed (before ++ (key, value) ∷ []) args) rest in
    let (shape, known, new) = read_key-eq-ok allowed before word read in
    Reads-pair allowed before word key value args shape
      (record { known = known; new = new; given = fail_if-eq-ok _ _ given })
      (parse_from-eq-ok allowed (before ++ (key, value) ∷ []) args more)

-- `Options::parse` accepts exactly the words that list some pairs, each key after two dashes and its
-- value after it, where every key is an allowed one that was not given before, and no value starts
-- with two dashes; its result is these pairs, in order.
pub parse_options_iff :
    (args allowed : List Bytes) (values : Options)
    → (parse_options args allowed ≡ ok values)
      ↔ ((args ≡ to_args values) × IsOptions allowed [] values)
unfolding parse_options
parse_options_iff args allowed values = (
  λ e.
      let (read, same, words, valid) = parse_from-eq-ok allowed [] args e in rw same (words, valid),
  λ (words, valid). rw words (parse_from-to_args allowed [] values valid),
)

get_option-append :
    (before after : Options) (name : Bytes)
    → has_key before name ≡ false
    → get_option (before ++ after) name ≡ get_option after name
get_option-append [] after name h = refl
get_option-append ((key, value) ∷ before) after name h = elim (Bool-cases (key == name)) [
  | inl same ↦ ground (arith, h, same)
  | inr other ↦ rw other (get_option-append before after name (rw other at h))
]

get_option-cons :
    (key value : Bytes) (after : Options) → get_option ((key, value) ∷ after) key ≡ some value
get_option-cons key value after = rw (beq_refl key)

has_key-at :
    (allowed : List Bytes) (before middle after : Options) (key value : Bytes)
    → IsOptions allowed before (middle ++ (key, value) ∷ after)
    → has_key (before ++ middle) key ≡ false
has_key-at allowed before [] after key value valid = rw (append-nil before) valid.0.new
has_key-at allowed before (pair ∷ middle) after key value valid =
    rw (← append_assoc before (pair ∷ []) middle)
      (has_key-at allowed (before ++ pair ∷ []) middle after key value valid.1)

-- After `Options::parse`, `get` of the key of each pair that was read returns the pair's value.
pub get_option-parse_options :
    (args allowed : List Bytes) (before after : Options) (key value : Bytes)
    → parse_options args allowed ≡ ok (before ++ (key, value) ∷ after)
    → get_option (before ++ (key, value) ∷ after) key ≡ some value
get_option-parse_options args allowed before after key value e =
    let (words, valid) = (parse_options_iff args allowed _).0 e in
    get_option-append before ((key, value) ∷ after) key
      (has_key-at allowed [] before after key value valid)
    ∙ get_option-cons key value after
