-- ===== src/Json/Folding.antt =====
-- The bytes of JSON strings and keys: UTF-8 that is repaired, and keys that match in either case.
use uni_chat_sdk.Prelude.{
  ℕ, ◌+◌, ltb, leb, eqb, Bytes, ◌==◌, Bool, true, false, ◌&&◌, ◌||◌, Option, none, some, [], ◌∷◌,
  if◌then◌else◌,
}
use uni_chat_sdk.Json.Values.{Value, Members, no_members, member}

abbrev between : ℕ → ℕ → ℕ → Bool
between lo hi c = leb lo c && leb c hi

abbrev tail : ℕ → Bool
tail c = between 0x80 0xBF c

-- The bytes of a character of two, three and four bytes.
unfoldable pub utf8_2 : ℕ → ℕ → Bool
utf8_2 a b = between 0xC2 0xDF a && tail b

unfoldable pub utf8_3 : ℕ → ℕ → ℕ → Bool
utf8_3 a b c =
    ((eqb a 0xE0 && between 0xA0 0xBF b)
      || (between 0xE1 0xEC a && tail b)
      || (eqb a 0xED && between 0x80 0x9F b)
      || (between 0xEE 0xEF a && tail b))
    && tail c

unfoldable pub utf8_4 : ℕ → ℕ → ℕ → ℕ → Bool
utf8_4 a b c d =
    ((eqb a 0xF0 && between 0x90 0xBF b)
      || (between 0xF1 0xF3 a && tail b)
      || (eqb a 0xF4 && between 0x80 0x8F b))
    && tail c
    && tail d

-- A byte that begins no character is written as U+FFFD.
abbrev repaired : Bytes → Bytes
repaired s = 0xEF ∷ 0xBF ∷ 0xBD ∷ s

-- What encoding/json writes for a string.
unfoldable pub to_utf8 : Bytes → Bytes
unfolding utf8_2 utf8_3 utf8_4
to_utf8 [] = []
to_utf8 (a ∷ []) = if ltb a 0x80 then a ∷ [] else repaired []
to_utf8 (a ∷ b ∷ []) = elim (ltb a 0x80) [
  | true ↦ a ∷ to_utf8 (b ∷ [])
  | false ↦ elim (utf8_2 a b) [ true ↦ a ∷ b ∷ [] | false ↦ repaired (to_utf8 (b ∷ [])) ]
]
to_utf8 (a ∷ b ∷ c ∷ []) = elim (ltb a 0x80) [
  | true ↦ a ∷ to_utf8 (b ∷ c ∷ [])
  | false ↦ elim (utf8_2 a b) [
    | true ↦ a ∷ b ∷ to_utf8 (c ∷ [])
    | false ↦ elim (utf8_3 a b c) [
      | true ↦ a ∷ b ∷ c ∷ []
      | false ↦ repaired (to_utf8 (b ∷ c ∷ []))
    ]
  ]
]
to_utf8 (a ∷ b ∷ c ∷ d ∷ s) = elim (ltb a 0x80) [
  | true ↦ a ∷ to_utf8 (b ∷ c ∷ d ∷ s)
  | false ↦ elim (utf8_2 a b) [
    | true ↦ a ∷ b ∷ to_utf8 (c ∷ d ∷ s)
    | false ↦ elim (utf8_3 a b c) [
      | true ↦ a ∷ b ∷ c ∷ to_utf8 (d ∷ s)
      | false ↦ elim (utf8_4 a b c d) [
        | true ↦ a ∷ b ∷ c ∷ d ∷ to_utf8 s
        | false ↦ repaired (to_utf8 (b ∷ c ∷ d ∷ s))
      ]
    ]
  ]
]

-- A string that is written as it is.
unfoldable pub is_utf8 : Bytes → Bool
is_utf8 s = to_utf8 s == s

abbrev lower : ℕ → ℕ
lower c = if between 65 90 c then c + 32 else c

-- The letters of a key in lower case, U+017F read as s and U+212A as k: two ASCII names of fields,
-- or a key and such a name, match if these are equal.
unfoldable pub fold_key : Bytes → Bytes
fold_key [] = []
fold_key (a ∷ []) = lower a ∷ []
fold_key (a ∷ b ∷ []) = elim (eqb a 0xC5 && eqb b 0xBF) [
  | true ↦ 115 ∷ []
  | false ↦ lower a ∷ fold_key (b ∷ [])
]
fold_key (a ∷ b ∷ c ∷ s) = elim (eqb a 0xC5 && eqb b 0xBF) [
  | true ↦ 115 ∷ fold_key (c ∷ s)
  | false ↦ elim (eqb a 0xE2 && eqb b 0x84 && eqb c 0xAA) [
    | true ↦ 107 ∷ fold_key s
    | false ↦ lower a ∷ fold_key (b ∷ c ∷ s)
  ]
]

-- The value of a field by its name in lower case: of two keys that match it the later one counts.
-- (Go goes on from what the earlier one left, which differs for null, maps and structs: the texts
-- that it writes have no such keys.)
unfoldable pub find : Bytes → Members → Option Value
find k no_members = none
find k (member j v rest) = elim (find k rest) [
  | some w ↦ some w
  | none ↦ if fold_key j == k then some v else none
]
