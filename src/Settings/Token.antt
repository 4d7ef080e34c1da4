-- ===== src/Settings/Token.antt =====
-- ReadToken of internal/server/token.go. A file is its text: bytes that are not UTF-8 are read as
-- U+FFFD in the source, and refused as that is.
use Prim.Native.Char.{Char, code}
use cnpg_connect_plugin.Prelude.{
  ℕ, ◌+◌, ◌≤◌, ◌≡◌, refl, String, Bool, false, ◌&&◌, ◌||◌, Option, none, some, arith, ltb, leb,
  nat_beq, if◌then◌else◌,
}
use cnpg_connect_plugin.Prelude.Result.{Result, ok, err, ◌>>◌, refuse_if}

-- unicode.IsSpace
unfoldable pub is_space : ℕ → Bool
is_space c =
    (leb 9 c && leb c 13)
    || (nat_beq c 32
        || (nat_beq c 133
            || (nat_beq c 160
                || (nat_beq c 5760
                    || ((leb 8192 c && leb c 8202)
                        || (nat_beq c 8232
                            || (nat_beq c 8233
                                || (nat_beq c 8239 || (nat_beq c 8287 || nat_beq c 12288)))))))))

unfoldable pub trim_left : String → String
unfolding is_space
trim_left String.[] = ""
trim_left (String.◌∷◌ c s) =
    let rest = trim_left s in if is_space (code c) then rest else String.◌∷◌ c s

-- A character before a text that is trimmed at its end.
unfoldable pub before_trimmed : Char → String → String
unfolding is_space
before_trimmed c String.[] = if is_space (code c) then "" else String.◌∷◌ c String.[]
before_trimmed c (String.◌∷◌ d s) = String.◌∷◌ c (String.◌∷◌ d s)

unfoldable pub trim_right : String → String
unfolding before_trimmed
trim_right String.[] = ""
trim_right (String.◌∷◌ c s) = before_trimmed c (trim_right s)

-- strings.TrimSpace
unfoldable pub trim_space : String → String
unfolding trim_left trim_right
trim_space s = trim_right (trim_left s)

-- The number of bytes of a text in UTF-8.
unfoldable pub byte_length : String → ℕ
byte_length String.[] = 0
byte_length (String.◌∷◌ c s) =
    (if ltb (code c) 128
      then 1
      else if ltb (code c) 2048
      then 2
      else if ltb (code c) 65536
      then 3
      else 4)
    + byte_length s

unfoldable pub has_unprintable : String → Bool
has_unprintable String.[] = false
has_unprintable (String.◌∷◌ c s) =
    let rest = has_unprintable s in (ltb (code c) 33 || ltb 126 (code c)) || rest

pub data TokenError : Type 0 where
  unreadable too_short not_printable : TokenError

-- `file` is none where the file cannot be read.
unfoldable pub read_token : Option String → Result TokenError String
unfolding trim_space has_unprintable byte_length
read_token none = err unreadable
read_token (some file) = do
  let token = trim_space file
  refuse_if (ltb (byte_length token) 32) too_short
  refuse_if (has_unprintable token) not_printable
  ok token

trim_left_printable : (s : String) → has_unprintable s ≡ false → trim_left s ≡ s
unfolding trim_left has_unprintable is_space
trim_left_printable String.[] h = refl
trim_left_printable (String.◌∷◌ c s) h = ground arith

trim_right_printable : (s : String) → has_unprintable s ≡ false → trim_right s ≡ s
unfolding trim_right before_trimmed has_unprintable is_space
trim_right_printable String.[] h = refl
trim_right_printable (String.◌∷◌ c String.[]) h = ground arith
trim_right_printable (String.◌∷◌ c (String.◌∷◌ d s)) h =
    let rest = trim_right_printable (String.◌∷◌ d s) (ground arith) in rw (rest) refl

read_printable :
    (token : String)
    → 32 ≤ byte_length token
    → has_unprintable token ≡ false
    → read_token (some token) ≡ ok token
unfolding read_token trim_space
read_printable token long printable =
    let left = trim_left_printable token printable in
    let right = trim_right_printable token printable in rw (left, right) (ground arith)

-- A token that is read has at least 32 characters, all of them printable ASCII, and is the text of
-- the file less the white space around it; a file that holds just the token gives it back.
pub read_token-IsToken :
    (file token : String)
    → read_token (some file) ≡ ok token
    → (token ≡ trim_space file)
      × (32 ≤ byte_length token)
      × (has_unprintable token ≡ false)
      × (read_token (some token) ≡ ok token)
unfolding read_token
read_token-IsToken file token h =
    let same : token ≡ trim_space file = ground arith in
    let long : 32 ≤ byte_length token = ground arith in
    let printable : has_unprintable token ≡ false = ground arith in
    (same, long, printable, read_printable token long printable)
