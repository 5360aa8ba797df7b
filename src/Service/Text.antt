-- ===== src/Service/Text.antt =====
-- What the services use of Go's fmt and strings.
use Prim.Native.String.{◌++◌}
use hivepulse.Prelude.{
  ℕ, zero, suc, ◌+◌, ◌/◌, ◌%◌, String, Bool, true, false, ◌&&◌, ◌||◌, List, [], ◌∷◌, ℤ, codes, eqb,
  ltb, if◌then◌else◌,
}

abbrev digit : ℕ → String
digit zero = "0"
digit (suc zero) = "1"
digit (suc (suc zero)) = "2"
digit (suc (suc (suc zero))) = "3"
digit (suc (suc (suc (suc zero)))) = "4"
digit (suc (suc (suc (suc (suc zero))))) = "5"
digit (suc (suc (suc (suc (suc (suc zero)))))) = "6"
digit (suc (suc (suc (suc (suc (suc (suc zero))))))) = "7"
digit (suc (suc (suc (suc (suc (suc (suc (suc zero)))))))) = "8"
digit n = "9"

-- The first argument bounds the number of digits.
abbrev decimal_from : ℕ → ℕ → String
decimal_from zero n = ""
decimal_from (suc fuel) n =
    let front = decimal_from fuel (n / 10) in if ltb n 10 then digit n else front ++ digit (n % 10)

-- `%d`
unfoldable pub decimal : ℤ → String
decimal (ℤ.pos n) = decimal_from (suc n) n
decimal (ℤ.negsuc n) = "-" ++ decimal_from (suc (suc n)) (suc n)

abbrev starts_with : List ℕ → List ℕ → Bool
starts_with [] s = true
starts_with (c ∷ cs) [] = false
starts_with (c ∷ cs) (d ∷ s) = eqb c d && starts_with cs s

abbrev occurs : List ℕ → List ℕ → Bool
occurs word [] = starts_with word []
occurs word (c ∷ s) = starts_with word (c ∷ s) || occurs word s

-- The bytes of a character in UTF-8, before others.
abbrev encoded : ℕ → List ℕ → List ℕ
encoded c rest =
    if ltb c 0x80
    then c ∷ rest
    else if ltb c 0x800
    then (0xc0 + c / 64) ∷ (0x80 + c % 64) ∷ rest
    else if ltb c 0x10000
    then (0xe0 + c / 4096) ∷ (0x80 + c / 64 % 64) ∷ (0x80 + c % 64) ∷ rest
    else (0xf0 + c / 262144)
      ∷ (0x80 + c / 4096 % 64)
      ∷ (0x80 + c / 64 % 64)
      ∷ (0x80 + c % 64)
      ∷ rest

abbrev encoded_all : List ℕ → List ℕ
encoded_all [] = []
encoded_all (c ∷ cs) = encoded c (encoded_all cs)

-- The bytes of a text, `[]byte(text)`.
abbrev pub bytes : String → List ℕ
bytes text = encoded_all (codes text)

-- `strings.Contains(text, word)`, where the text is any bytes.
unfoldable pub contains_bytes : List ℕ → String → Bool
contains_bytes text word = occurs (bytes word) text

-- `strings.HasPrefix(text, prefix)`
unfoldable pub has_prefix : String → String → Bool
has_prefix text prefix = starts_with (codes prefix) (codes text)
