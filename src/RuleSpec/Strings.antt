-- ===== src/RuleSpec/Strings.antt =====
-- What the rules use of the packages strings, strconv, regexp and net.
use vpn_subscription_managem.Base.{
  ℕ, zero, suc, ◌+◌, ◌-◌, ◌*◌, ◌^◌, Bool, true, false, ◌&&◌, ◌||◌, List, [], ◌∷◌, ◌++◌, Text, ◌==◌,
  ltb, leb, Option, none, some, if◌then◌else◌,
}

unfoldable pub is_empty : Text → Bool
is_empty [] = true
is_empty (c ∷ cs) = false

-- strings.IndexByte(t, c) >= 0
unfoldable pub contains_char : ℕ → Text → Bool
contains_char c [] = false
contains_char c (x ∷ xs) = x == c || contains_char c xs

-- strings.ContainsAny
unfoldable pub contains_any : Text → Text → Bool
contains_any [] t = false
contains_any (c ∷ cs) t = contains_char c t || contains_any cs t

-- unicode.IsSpace
unfoldable pub is_space : ℕ → Bool
is_space c =
    leb 9 c && leb c 13
    || c == 32
    || c == 133
    || c == 160
    || c == 5760
    || leb 8192 c && leb c 8202
    || c == 8232
    || c == 8233
    || c == 8239
    || c == 8287
    || c == 12288

unfoldable pub trim_left : Text → Text
trim_left [] = []
trim_left (c ∷ cs) = let rest = trim_left cs in if is_space c then rest else c ∷ cs

unfoldable pub trim_right : Text → Text
trim_right [] = []
trim_right (c ∷ cs) =
    let rest = trim_right cs in if is_space c && is_empty rest then [] else c ∷ rest

-- strings.TrimSpace
unfoldable pub trim_space : Text → Text
trim_space t = trim_right (trim_left t)

-- strings.IndexByte: none for -1
unfoldable pub index_of : ℕ → Text → Option ℕ
index_of c [] = none
index_of c (x ∷ xs) =
    if x == c then some 0 else elim (index_of c xs) [ none ↦ none | some i ↦ some (suc i) ]

abbrev push : ℕ → List Text → List Text
push x [] = (x ∷ []) ∷ []
push x (p ∷ ps) = (x ∷ p) ∷ ps

-- strings.Split by one character
unfoldable pub split_at : ℕ → Text → List Text
split_at c [] = [] ∷ []
split_at c (x ∷ xs) = let parts = split_at c xs in if x == c then [] ∷ parts else push x parts

-- strings.Join by one character
unfoldable pub join_at : ℕ → List Text → Text
join_at c [] = []
join_at c (p ∷ ps) = elim ps [ [] ↦ p | q ∷ qs ↦ p ++ c ∷ join_at c ps ]

-- len: the bytes of the characters in UTF-8
abbrev char_len : ℕ → ℕ
char_len c = if ltb c 128 then 1 else if ltb c 2048 then 2 else if ltb c 65536 then 3 else 4

unfoldable pub byte_len : Text → ℕ
byte_len [] = 0
byte_len (c ∷ cs) = char_len c + byte_len cs

abbrev is_digit : ℕ → Bool
is_digit c = leb b'0' c && leb c b'9'

unfoldable pub read_digits : ℕ → Text → Option ℕ
read_digits n [] = some n
read_digits n (c ∷ cs) =
    let rest = read_digits (n * 10 + (c - b'0')) cs in if is_digit c then rest else none

-- strconv.ParseUint(t, 10, 64): none for an error
unfoldable pub parse_uint : Text → Option ℕ
parse_uint [] = none
parse_uint (c ∷ cs) = elim (read_digits 0 (c ∷ cs)) [
  | none ↦ none
  | some n ↦ if ltb n (2 ^ 64) then some n else none
]

-- negsuc n is -(n + 1)
pub data ℤ : Type 0 where
  pos : ℕ → ℤ
  negsuc : ℕ → ℤ

abbrev negate : ℕ → ℤ
negate zero = pos 0
negate (suc n) = negsuc n

abbrev signed : Bool → Text → Option ℤ
signed minus [] = none
signed minus (c ∷ cs) = elim (read_digits 0 (c ∷ cs)) [
  | none ↦ none
  | some n ↦
      if minus
      then (if leb n (2 ^ 63) then some (negate n) else none)
      else if ltb n (2 ^ 63)
      then some (pos n)
      else none
]

-- strconv.Atoi: none for an error
unfoldable pub atoi : Text → Option ℤ
atoi [] = none
atoi (c ∷ cs) =
    if c == b'-'
    then signed true cs
    else if c == b'+'
    then signed false cs
    else signed false (c ∷ cs)

-- strings.ToUpper and strings.ToLower, whether regexp.Compile accepts, and the network of
-- net.ParseCIDR as its String
pub record Library : Type 0 where
  pub to_upper : Text → Text
  pub to_lower : Text → Text
  pub compiles : Text → Bool
  pub parse_cidr : Text → Option Text
