-- ===== src/Protocol/Validation.antt =====
-- src/protocol/validation.ts, and the character classes that the protocol's texts are tested with.
use telegent.Base.{
  Text, leb, ◌==◌, if◌then◌else◌, any, all, length, ℕ, Bool, false, not, ◌&&◌, ◌||◌, [], ◌∷◌,
}

abbrev pub max_slug_length : ℕ
max_slug_length = 64

-- `[a-z0-9-]`
abbrev pub is_slug_char : ℕ → Bool
is_slug_char c = leb b'a' c && leb c b'z' || leb b'0' c && leb c b'9' || c == b'-'

-- `[A-Za-z0-9_]`, which is `\w`.
abbrev pub is_word_char : ℕ → Bool
is_word_char c =
    leb b'a' c && leb c b'z' || leb b'A' c && leb c b'Z' || leb b'0' c && leb c b'9' || c == b'_'

-- What `trim` and `trimStart` drop: ECMAScript's white space and line ends.
unfoldable pub is_space : ℕ → Bool
is_space c =
    leb 9 c && leb c 13
    || c == 32
    || c == 160
    || c == 5760
    || leb 8192 c && leb c 8202
    || leb 8232 c && leb c 8233
    || c == 8239
    || c == 8287
    || c == 12288
    || c == 65279

-- `value.includes("..")`
abbrev pub double_dot : Text → Bool
double_dot (c ∷ d ∷ s) = c == 46 && d == 46 || double_dot (d ∷ s)
double_dot _ = false

-- `/^[a-z0-9-]+$/` leaves no dot and no slash, so the source's last three tests are written out too.
unfoldable pub is_safe_slug : Text → Bool
is_safe_slug s =
    not (leb (length s) 0)
    && leb (length s) max_slug_length
    && all is_slug_char s
    && not (double_dot s)
    && not (any (λ c. c == 47) s)
    && not (any (λ c. c == 92) s)

-- `s.trim()`
abbrev pub trim_start : Text → Text
trim_start [] = []
trim_start (c ∷ s) = let rest = trim_start s in if is_space c then rest else c ∷ s

abbrev pub trim_end : Text → Text
trim_end [] = []
trim_end (c ∷ s) = let rest = trim_end s in if all is_space (c ∷ s) then [] else c ∷ rest

abbrev pub trim : Text → Text
trim s = trim_end (trim_start s)
