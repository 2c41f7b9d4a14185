-- ===== src/Agent/Catalogue/Patterns.antt =====
-- The patterns of src/agent/catalogue.ts.
use ratline.Prelude.{ℕ, [], ◌∷◌}
use ratline.Regex.{Ranges, Regex, class, seq, char, optional, plus, star, up_to}

-- `[a-z0-9]`
abbrev pub lower_digit : Ranges
lower_digit = (b'a', b'z') ∷ (b'0', b'9') ∷ []

-- `[a-z0-9-]`
abbrev pub lower_digit_dash : Ranges
lower_digit_dash = (b'a', b'z') ∷ (b'0', b'9') ∷ (b'-', b'-') ∷ []

-- `[a-zA-Z0-9_-]`
abbrev pub word_dash : Ranges
word_dash = (b'a', b'z') ∷ (b'A', b'Z') ∷ (b'0', b'9') ∷ (b'_', b'_') ∷ (b'-', b'-') ∷ []

-- `[a-z0-9](?:[a-z0-9-]{0,n}[a-z0-9])?`
abbrev pub label : ℕ → Regex
label n =
    seq (class lower_digit) (optional (seq (up_to n (class lower_digit_dash)) (class lower_digit)))

unfoldable pub site_slug : Regex
unfolding up_to
site_slug = label 30

-- `rl-` and a label
unfoldable pub service_id : Regex
unfolding up_to
service_id = seq (char b'r') (seq (char b'l') (seq (char b'-') (label 46)))

abbrev package_char : Ranges
package_char = (b'a', b'z') ∷ (b'0', b'9') ∷ (b'+', b'+') ∷ (b'.', b'.') ∷ (b'-', b'-') ∷ []

-- `[a-z0-9][a-z0-9+.-]{1,62}`
unfoldable pub package_name : Regex
unfolding up_to
package_name = seq (class lower_digit) (seq (class package_char) (up_to 61 (class package_char)))

-- `[a-zA-Z0-9_-]+(?:\.[a-zA-Z0-9_-]+)*`
abbrev pub segment : Regex
segment = seq (plus (class word_dash)) (star (seq (char b'.') (plus (class word_dash))))

-- segments joined by slashes
unfoldable pub path_in_site : Regex
path_in_site = seq segment (star (seq (char b'/') segment))

-- `(?:0|[1-9][0-9]*)`, of src/agent/envelope.ts
unfoldable pub decimal : Regex
decimal = Regex.alt (char b'0') (seq (class ((b'1', b'9') ∷ [])) (star (class ((b'0', b'9') ∷ []))))
