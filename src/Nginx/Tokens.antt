-- ===== src/Nginx/Tokens.antt =====
-- collectors/public_interfaces.py: `_tokenize_nginx`, character by character. A comment is one more
-- way to read a character, from `#` to the line's end.
use Prim.Native.String
use Prim.Native.String.{[], ◌∷◌}
use cozy_nm.Base.{
  ℕ, String, Char, code, Bool, ◌||◌, nat_eq, is_empty, if◌then◌else◌, List, ◌++◌, Result, ok, err,
}
use cozy_nm.Hosts.Paths.{FileError}
use cozy_nm.Bridges.Decimal.{is_space}

-- what the readers of the configuration raise
pub data NginxError : Type 0 where
  unterminated_string : NginxError
  unexpected_closing_brace : NginxError
  name_missing : NginxError
  terminator_missing : String → NginxError
  unterminated_block : NginxError
  file_error : FileError → NginxError
  out_of_fuel : NginxError

pub data Mode : Type 0 where
  plain : Mode
  comment : Mode
  quoted : Char → Mode
  escaped : Char → Mode

pub record Scanner : Type 0 where
  pub tokens : List String
  pub current : String
  pub mode : Mode

abbrev pub is_quote : ℕ → Bool
is_quote c = nat_eq c b'\'' || nat_eq c b'"'

abbrev pub is_delimiter : ℕ → Bool
is_delimiter c = nat_eq c b'{' || nat_eq c b'}' || nat_eq c b';'

-- s + c
abbrev pub text_add : String → Char → String
text_add s c = String.◌++◌ s (c ∷ [])

-- the tokens, with the current one if it has a character
unfoldable pub flushed : List String → (current : String) → List String
flushed tokens current = if is_empty current then tokens else tokens ++ List.◌∷◌ current List.[]

unfoldable pub scan_plain : List String → (current : String) → Char → Scanner
scan_plain tokens current c =
    if is_quote (code c)
    then record { tokens = tokens; current = current; mode = quoted c }
    else if nat_eq (code c) b'#'
    then record { tokens = flushed tokens current; current = ""; mode = comment }
    else if is_space (code c)
    then record { tokens = flushed tokens current; current = ""; mode = plain }
    else if is_delimiter (code c)
    then record {
      tokens = flushed tokens current ++ List.◌∷◌ (c ∷ []) List.[];
      current = "";
      mode = plain;
    }
    else record { tokens = tokens; current = text_add current c; mode = plain }

-- one round of the loop
unfoldable pub scan_char : Mode → List String → (current : String) → Char → Scanner
unfolding scan_plain
scan_char plain tokens current c = scan_plain tokens current c
scan_char comment tokens current c = record {
  tokens = tokens;
  current = current;
  mode = if nat_eq (code c) b'\n' then plain else comment;
}
scan_char (escaped q) tokens current c = record {
  tokens = tokens;
  current = text_add current c;
  mode = quoted q;
}
scan_char (quoted q) tokens current c =
    if nat_eq (code c) b'\\'
    then record { tokens = tokens; current = current; mode = escaped q }
    else if nat_eq (code c) (code q)
    then record { tokens = tokens; current = current; mode = plain }
    else record { tokens = tokens; current = text_add current c; mode = quoted q }

unfoldable pub scan_text : Scanner → String → Scanner
unfolding scan_char
scan_text s [] = s
scan_text s (c ∷ text) = scan_text (scan_char s.mode s.tokens s.current c) text

-- what is left after the last character
unfoldable pub finish : Mode → List String → (current : String) → Result NginxError (List String)
finish (quoted q) tokens current = err unterminated_string
finish (escaped q) tokens current = err unterminated_string
finish plain tokens current = ok (flushed tokens current)
finish comment tokens current = ok (flushed tokens current)

unfoldable pub tokenize_nginx : String → Result NginxError (List String)
unfolding scan_text finish
tokenize_nginx text =
    let s = scan_text (record { tokens = List.[]; current = ""; mode = plain }) text in
    finish s.mode s.tokens s.current
