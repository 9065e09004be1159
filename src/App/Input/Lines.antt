-- ===== src/App/Input/Lines.antt =====
-- The first line of an input that begins with a block, for `read_bounded_line` of src/main.rs.
use solx.Common.{
  ℕ, zero, suc, ◌+◌, ◌-◌, ◌≤◌, ◌≡◌, ◌≢◌, refl, sym, ap, ◌∙◌, inl, inr, Bool, true, false, ◌||◌,
  Bool-cases, List, [], ◌∷◌, ◌++◌, append-nil, Bytes, length, get_elem?, take, drop, some, arith,
}
use solx.Common.Eq.{◌==◌, nat_eq, option_eq, option_beq}
use solx.App.Input.{line_end, is_complete}

-- The bytes of an input, and its first line.
abbrev pub joined : List Bytes → Bytes
joined [] = []
joined (block ∷ blocks) = block ++ joined blocks

abbrev pub first_line : Bytes → Bytes
first_line text = take (line_end text) text

abbrev pub after_line : Bytes → Bytes
after_line text = drop (line_end text) text

abbrev pub has_end : Bytes → Bool
has_end [] = false
has_end (b ∷ block) = b == 10 || has_end block

add_nothing : (n : ℕ) → n + 0 ≡ n
add_nothing n = omega arith

plus_nothing : (n : ℕ) → 0 + n ≡ n
plus_nothing n = omega arith

plus_suc : (m n : ℕ) → suc m + n ≡ suc (m + n)
plus_suc m n = omega arith

take_within : (n : ℕ) (xs ys : Bytes) → n ≤ length xs → take n (xs ++ ys) ≡ take n xs
take_within zero xs ys h = refl
take_within (suc n) [] ys h = absurd (omega (arith, h))
take_within (suc n) (x ∷ xs) ys h = ap (λ l. x ∷ l) (take_within n xs ys (omega (arith, h)))

drop_within : (n : ℕ) (xs ys : Bytes) → n ≤ length xs → drop n (xs ++ ys) ≡ drop n xs ++ ys
drop_within zero xs ys h = refl
drop_within (suc n) [] ys h = absurd (omega (arith, h))
drop_within (suc n) (x ∷ xs) ys h = drop_within n xs ys (omega (arith, h))

pub take_all : (xs : Bytes) → take (length xs) xs ≡ xs
take_all [] = refl
take_all (x ∷ xs) = ap (λ l. x ∷ l) (take_all xs)

take_past : (xs ys : Bytes) (n : ℕ) → take (length xs + n) (xs ++ ys) ≡ xs ++ take n ys
take_past [] ys n = ap (λ k. take k ys) (plus_nothing n)
take_past (x ∷ xs) ys n =
    ap (λ k. take k (x ∷ (xs ++ ys))) (plus_suc (length xs) n) ∙ ap (λ l. x ∷ l) (take_past xs ys n)

drop_past : (xs ys : Bytes) (n : ℕ) → drop (length xs + n) (xs ++ ys) ≡ drop n ys
drop_past [] ys n = ap (λ k. drop k ys) (plus_nothing n)
drop_past (x ∷ xs) ys n =
    ap (λ k. drop k (x ∷ (xs ++ ys))) (plus_suc (length xs) n) ∙ drop_past xs ys n

pub true-ne-false : true ≢ false
true-ne-false e = cc

pub line_end-pos : (c : ℕ) (block : Bytes) → 1 ≤ line_end (c ∷ block)
unfolding line_end
line_end-pos c block = elim (Bool-cases (c == 10)) [
  | inl ends ↦ rw ends (omega arith)
  | inr further ↦ rw further (omega arith)
]

further_lem :
    (b c : ℕ) (block : Bytes)
    → option_beq (get_elem? (c ∷ block) (line_end (c ∷ block) - 1)) (some 10) ≡ has_end (c ∷ block)
    → option_beq (get_elem? (b ∷ c ∷ block) (suc (line_end (c ∷ block)) - 1)) (some 10)
      ≡ has_end (c ∷ block)
further_lem b c block e =
    let next : suc (line_end (c ∷ block)) - 1 ≡ suc (line_end (c ∷ block) - 1) =
      omega (arith, line_end-pos c block) in
    ap (λ n. option_beq (get_elem? (b ∷ c ∷ block) n) (some 10)) next ∙ e

pub complete_lem : (block : Bytes) → is_complete block ≡ has_end block
unfolding is_complete line_end option_beq
complete_lem [] = refl
complete_lem (b ∷ []) = ground arith
complete_lem (b ∷ c ∷ block) = elim (Bool-cases (b == 10)) [
  | inl ends ↦ rw ends ends
  | inr further ↦ rw further (further_lem b c block (complete_lem (c ∷ block)))
]

line_end-append_end :
    (block text : Bytes) → has_end block ≡ true → line_end (block ++ text) ≡ line_end block
unfolding line_end
line_end-append_end [] text e = cc
line_end-append_end (b ∷ block) text e = elim (Bool-cases (b == 10)) [
  | inl ends ↦ rw ends
  | inr further ↦ rw (further, line_end-append_end block text (rw further at e))
]

line_end-append :
    (block text : Bytes)
    → has_end block ≡ false
    → line_end (block ++ text) ≡ length block + line_end text
unfolding line_end
line_end-append [] text e = omega arith
line_end-append (b ∷ block) text e = elim (Bool-cases (b == 10)) [
  | inl ends ↦ absurd (true-ne-false (rw ends at e))
  | inr further ↦ rw further (omega (arith, line_end-append block text (rw further at e)))
]

pub line_end-le : (block : Bytes) → line_end block ≤ length block
unfolding line_end
line_end-le [] = omega arith
line_end-le (b ∷ block) = elim (Bool-cases (b == 10)) [
  | inl ends ↦ rw ends (omega arith)
  | inr further ↦ rw further (omega (arith, line_end-le block))
]

pub line_end-whole : (block : Bytes) → has_end block ≡ false → line_end block ≡ length block
unfolding line_end
line_end-whole block e =
    ap line_end (sym (append-nil block)) ∙ line_end-append block [] e ∙ add_nothing (length block)

pub first_line-append_end :
    (block text : Bytes) → has_end block ≡ true → first_line (block ++ text) ≡ first_line block
first_line-append_end block text e =
    ap (λ n. take n (block ++ text)) (line_end-append_end block text e)
    ∙ take_within (line_end block) block text (line_end-le block)

pub after_line-append_end :
    (block text : Bytes)
    → has_end block ≡ true
    → after_line (block ++ text) ≡ after_line block ++ text
after_line-append_end block text e =
    ap (λ n. drop n (block ++ text)) (line_end-append_end block text e)
    ∙ drop_within (line_end block) block text (line_end-le block)

pub first_line-append :
    (block text : Bytes)
    → has_end block ≡ false
    → first_line (block ++ text) ≡ block ++ first_line text
first_line-append block text e =
    ap (λ n. take n (block ++ text)) (line_end-append block text e)
    ∙ take_past block text (line_end text)

pub after_line-append :
    (block text : Bytes) → has_end block ≡ false → after_line (block ++ text) ≡ after_line text
after_line-append block text e =
    ap (λ n. drop n (block ++ text)) (line_end-append block text e)
    ∙ drop_past block text (line_end text)
