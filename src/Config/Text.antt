-- ===== src/Config/Text.antt =====
-- The standard library's functions on texts that `src/config.rs` uses: `trim`, `to_ascii_lowercase`,
-- `parse` of an unsigned integer, and the decimal digits of a port.
use test_app_pkcs.Prelude.{
  ℕ, zero, suc, ◌+◌, ◌-◌, ◌*◌, ◌/◌, ◌%◌, Bool, true, false, ◌&&◌, ◌||◌, Option, none, some, List,
  [], ◌∷◌, map, ltb, leb, ◌==◌, if◌then◌else◌,
}

unfoldable pub text_eq : List ℕ → List ℕ → Bool
text_eq [] [] = true
text_eq [] (d ∷ ds) = false
text_eq (c ∷ cs) [] = false
text_eq (c ∷ cs) (d ∷ ds) = c == d && text_eq cs ds

abbrev pub is_empty {ℓ} : {A : Type ℓ} → List A → Bool
is_empty [] = true
is_empty (c ∷ cs) = false

-- `char::is_whitespace`
abbrev pub is_whitespace : ℕ → Bool
is_whitespace c =
    (leb 9 c && leb c 13)
    || (c == 32)
    || (c == 0x85)
    || (c == 0xA0)
    || (c == 0x1680)
    || (leb 0x2000 c && leb c 0x200A)
    || (c == 0x2028)
    || (c == 0x2029)
    || (c == 0x202F)
    || (c == 0x205F)
    || (c == 0x3000)

unfoldable pub trim_start : List ℕ → List ℕ
trim_start [] = []
trim_start (c ∷ cs) = let rest = trim_start cs in if is_whitespace c then rest else c ∷ cs

unfoldable pub trim_end : List ℕ → List ℕ
trim_end [] = []
trim_end (c ∷ cs) =
    let rest = trim_end cs in if is_whitespace c && is_empty rest then [] else c ∷ rest

unfoldable pub trim : List ℕ → List ℕ
unfolding trim_start trim_end
trim s = trim_end (trim_start s)

abbrev pub to_lower : ℕ → ℕ
to_lower c = if leb b'A' c && leb c b'Z' then c + 32 else c

unfoldable pub to_ascii_lowercase : List ℕ → List ℕ
to_ascii_lowercase s = map to_lower s

-- The digits that follow, below `bound`.
unfoldable pub parse_digits : ℕ → ℕ → List ℕ → Option ℕ
parse_digits bound acc [] = some acc
parse_digits bound acc (c ∷ cs) =
    let next = acc * 10 + (c - b'0') in
    let rest = parse_digits bound next cs in
    if leb b'0' c && leb c b'9' && ltb next bound then rest else none

abbrev pub nonempty_digits : ℕ → List ℕ → Option ℕ
nonempty_digits bound [] = none
nonempty_digits bound (c ∷ cs) = parse_digits bound 0 (c ∷ cs)

-- `str::parse` of an unsigned integer below `bound`, before which a `+` may stand.
unfoldable pub parse_uint : ℕ → List ℕ → Option ℕ
unfolding parse_digits
parse_uint bound [] = none
parse_uint bound (c ∷ cs) =
    if c == b'+' then nonempty_digits bound cs else parse_digits bound 0 (c ∷ cs)

-- The decimal digits of `n`, at most as many as the first number says.
unfoldable pub digits : ℕ → ℕ → List ℕ → List ℕ
digits zero n acc = acc
digits (suc f) n acc =
    let rest = digits f (n / 10) ((b'0' + n % 10) ∷ acc) in
    if ltb n 10 then (b'0' + n) ∷ acc else rest

unfoldable pub show_u16 : ℕ → List ℕ
unfolding digits
show_u16 n = digits 5 n []
