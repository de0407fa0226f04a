-- ===== src/Execution/Query.antt =====
-- src/redline/sponsor/bitget_execution.py: `_path_with_query`, with `urllib.parse.urlencode`.
use Prim.Native.Char.{code}
use playbook_redline.Base.{
  ℕ, zero, suc, ◌+◌, ◌/◌, ◌%◌, String, Bool, ◌&&◌, ◌||◌, List, [], ◌∷◌, append, str_leb, leb, ltb,
  ◌==◌, if◌then◌else◌,
}
use playbook_redline.Base.Sorting.{sort}
use playbook_redline.Base.Strip.{is_empty}

abbrev pub Query : Type 0
Query = List (String × String)

-- The character of a text at a place.
char_at : ℕ → String → String
char_at n String.[] = ""
char_at zero (String.◌∷◌ c s) = String.◌∷◌ c ""
char_at (suc n) (String.◌∷◌ c s) = char_at n s

-- A byte as `%XX`.
percent : ℕ → String
unfolding char_at
percent byte =
    append "%"
      (append (char_at (byte / 16) "0123456789ABCDEF") (char_at (byte % 16) "0123456789ABCDEF"))

percent_all : List ℕ → String → String
unfolding percent
percent_all [] rest = rest
percent_all (byte ∷ bytes) rest = append (percent byte) (percent_all bytes rest)

-- The bytes of a character in UTF-8.
abbrev utf8 : ℕ → List ℕ
utf8 c =
    if ltb c 128
    then c ∷ []
    else if ltb c 2048
    then (192 + c / 64) ∷ (128 + c % 64) ∷ []
    else if ltb c 65536
    then (224 + c / 4096) ∷ (128 + c / 64 % 64) ∷ (128 + c % 64) ∷ []
    else (240 + c / 262144) ∷ (128 + c / 4096 % 64) ∷ (128 + c / 64 % 64) ∷ (128 + c % 64) ∷ []

-- Letters, digits and `_.-~`.
abbrev is_unreserved : ℕ → Bool
is_unreserved c =
    (leb 65 c && leb c 90)
    || (leb 97 c && leb c 122)
    || (leb 48 c && leb c 57)
    || c == 95
    || c == 46
    || c == 45
    || c == 126

-- `quote_plus`.
unfoldable pub quote_plus : String → String
unfolding percent_all append
quote_plus String.[] = ""
quote_plus (String.◌∷◌ c s) =
    let rest = quote_plus s in
    if is_unreserved (code c)
    then String.◌∷◌ c rest
    else if code c == 32
    then append "+" rest
    else percent_all (utf8 (code c)) rest

pair : String × String → String
unfolding quote_plus
pair (key, value) = append (quote_plus key) (append "=" (quote_plus value))

-- `urlencode`.
unfoldable pub urlencode : Query → String
unfolding pair
urlencode [] = ""
urlencode (item ∷ []) = pair item
urlencode (item ∷ next ∷ query) = append (pair item) (append "&" (urlencode (next ∷ query)))

-- The items whose value is not empty.
unfoldable pub filtered : Query → Query
filtered [] = []
filtered ((key, value) ∷ query) =
    let rest = filtered query in if is_empty value then rest else (key, value) ∷ rest

abbrev pub by_key : String × String → String × String → Bool
by_key (key, value) (other, content) = str_leb key other

unfoldable pub with_query : String → Query → String
unfolding urlencode
with_query path [] = path
with_query path (item ∷ query) = append path (append "?" (urlencode (sort by_key (item ∷ query))))

-- `_path_with_query`; the keys of a query are distinct.
unfoldable pub path_with_query : String → Query → String
unfolding filtered with_query
path_with_query path query = with_query path (filtered query)
