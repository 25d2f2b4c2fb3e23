-- ===== src/Uart/Text.antt =====
-- The texts between the UART tools and the test peer: decimal numbers, and `fields` of tools/uart_peer_smoke.py. A text is
-- the list of its ASCII codes.
use firmingo.Common.{
  ℕ, zero, suc, ◌+◌, ◌/◌, ◌%◌, Bool, true, false, ◌&&◌, ◌||◌, Option, none, some, List, [], ◌∷◌,
  ◌++◌, length, take, leb, ltb, ◌==◌, if◌then◌else◌,
}
use firmingo.Common.Bytes.{Bytes, bytes_eq}

-- `str(n)`; a number has at most as many digits as its fuel `n + 1`.
unfoldable pub digits : ℕ → ℕ → Bytes → Bytes
digits zero n behind = behind
digits (suc fuel) n behind =
    let more = digits fuel (n / 10) ((48 + n % 10) ∷ behind) in
    if ltb n 10 then (48 + n) ∷ behind else more

abbrev pub decimal : ℕ → Bytes
decimal n = digits (suc n) n []

abbrev pub starts_with : Bytes → Bytes → Bool
starts_with prefix text = bytes_eq (take (length prefix) text) prefix

-- The white space of `str.split()` in ASCII.
abbrev pub is_space : ℕ → Bool
is_space x = x == 32 || ((leb 9 x && leb x 13) || (leb 28 x && leb x 31))

abbrev pub flush : Bytes → List Bytes → List Bytes
flush [] words = words
flush (x ∷ xs) words = (x ∷ xs) ∷ words

unfoldable pub split_words : Bytes → Bytes → List Bytes
split_words word [] = flush word []
split_words word (x ∷ xs) = elim (is_space x) [
  | true ↦ flush word (split_words [] xs)
  | false ↦ split_words (word ++ (x ∷ [])) xs
]

-- `item.split('=', 1)`, if there is a `=`.
unfoldable pub split_item : Bytes → Option (Bytes × Bytes)
split_item [] = none
split_item (x ∷ xs) =
    let rest = split_item xs in
    if x == 61
    then some ([], xs)
    else elim rest [ none ↦ none | some (key, value) ↦ some (x ∷ key, value) ]

unfoldable pub items_of : List Bytes → List (Bytes × Bytes)
items_of [] = []
items_of (word ∷ words) =
    let rest = items_of words in elim (split_item word) [ none ↦ rest | some pair ↦ pair ∷ rest ]

unfoldable pub fields : Bytes → List (Bytes × Bytes)
unfolding split_words split_item items_of
fields line = items_of (split_words [] line)

-- `result.get(key)`: the last value counts.
unfoldable pub value_of : Bytes → List (Bytes × Bytes) → Option Bytes
value_of key [] = none
value_of key ((k, v) ∷ items) = elim (value_of key items) [
  | some later ↦ some later
  | none ↦ if bytes_eq k key then some v else none
]

abbrev pub is_text : Option Bytes → Bytes → Bool
is_text none text = false
is_text (some v) text = bytes_eq v text
