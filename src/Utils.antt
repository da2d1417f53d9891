-- ===== src/Utils.antt =====
-- redash/utils/__init__.py: the pure text helpers. Texts are lists of code points. `Hash` stands for
-- hashlib's MD5 as a hexadecimal text.
pub mod Hashing
pub mod Slugs
mod Examples
use mathlib.Core.List.{reverse}
use Prim.Native.Nat.{zero, suc}
use dingolytics_backend.Base.{
  ℕ, String, Bool, true, false, not, ◌&&◌, ◌||◌, Option, none, some, List, [], ◌∷◌, ◌++◌, keep,
  ◌==◌, if◌then◌else◌, nat_eq, string_eq, map, contains, any, suc, length,
}
use dingolytics_backend.Base.Dict.{Dict, get, put}
use dingolytics_backend.Base.Text.{Text, codes, text_eq, is_space, is_lower, is_digit, lower}

abbrev pub star : ℕ
star = b'*'

abbrev pub slash : ℕ
slash = b'/'

abbrev pub newline : ℕ
newline = 10

abbrev pub dash : ℕ
dash = b'-'

abbrev pub underscore : ℕ
underscore = b'_'

-- `.*?\*/`: what follows the first "*/" of the text, if it comes before the line ends.
unfoldable pub after_comment : Text → Option Text
after_comment [] = none
after_comment (c ∷ []) = none
after_comment (c ∷ d ∷ s) =
    let rest = after_comment (d ∷ s) in
    if c == star && d == slash then some s else if c == newline then none else rest

-- What follows a comment that opens at this place.
unfoldable pub comment_here : Text → Option Text
unfolding after_comment
comment_here (c ∷ d ∷ s) = if c == slash && d == star then after_comment s else none
comment_here _ = none

-- `COMMENTS_REGEX.sub("", sql)`, with fuel for the characters still to read.
unfoldable pub sub_comments : ℕ → Text → Text
sub_comments zero s = s
sub_comments (suc fuel) [] = []
sub_comments (suc fuel) (c ∷ s) = elim (comment_here (c ∷ s)) [
  | some rest ↦ sub_comments fuel rest
  | none ↦ c ∷ sub_comments fuel s
]

unfoldable pub strip_comments : Text → Text
unfolding sub_comments
strip_comments s = sub_comments (length s) s

-- `"".join(sql.split()).lower()`
unfoldable pub squeeze : Text → Text
unfolding is_space lower
squeeze s = lower (keep (λ c. not (is_space c)) s)

unfoldable pub gen_query_hash : (Text → Text) → Text → Text
gen_query_hash hash sql = hash (squeeze (strip_comments sql))

unfoldable pub is_slug_char : ℕ → Bool
unfolding is_lower is_digit
is_slug_char c = is_lower c || is_digit c || c == underscore || c == dash

-- `re.sub("[^a-z0-9_\-]+", "-", s)`; the flag says that the character before was replaced.
unfoldable pub sub_slug : Bool → Text → Text
unfolding is_slug_char
sub_slug replaced [] = []
sub_slug replaced (c ∷ s) =
    let kept = c ∷ sub_slug false s in
    let dropped = sub_slug true s in
    if is_slug_char c then kept else if replaced then dropped else dash ∷ dropped

unfoldable pub slugify : Text → Text
unfolding sub_slug lower
slugify s = sub_slug false (lower s)

take_parameter : Dict Text Text → Text → Text → Dict Text Text
take_parameter acc (c ∷ d ∷ name) v = if c == b'p' && d == underscore then put acc name v else acc
take_parameter acc _ v = acc

-- `collect_parameters_from_request`: the arguments named "p_…", without the prefix.
unfoldable pub collect_parameters : Dict Text Text → Dict Text Text → Dict Text Text
unfolding take_parameter
collect_parameters acc [] = acc
collect_parameters acc ((k, v) ∷ args) = collect_parameters (take_parameter acc k v) args

unfoldable pub collect_parameters_from_request : Dict Text Text → Dict Text Text
unfolding collect_parameters
collect_parameters_from_request args = collect_parameters [] args

-- `build_url`: the port of the request's host is kept unless it is the scheme's own.
unfoldable pub split_colon : Text → List Text
split_colon [] = [] ∷ []
split_colon (c ∷ s) = elim (split_colon s) [
  | [] ↦ (c ∷ []) ∷ []
  | part ∷ parts ↦ if c == b':' then [] ∷ part ∷ parts else (c ∷ part) ∷ parts
]

with_port : Text → Text → Text → Text
with_port scheme host port =
    if (port == codes "80" && scheme == codes "http")
      || (port == codes "443" && scheme == codes "https")
    then host
    else host ++ b':' ∷ port

unfoldable pub build_url : (request_host scheme host path : Text) → Text
unfolding split_colon with_port
build_url request_host scheme host path =
    let target : Text = elim (split_colon request_host) [
      | _ ∷ port ∷ _ ↦ with_port scheme host port
      | _ ↦ host
    ] in
    scheme ++ (codes "://" ++ (target ++ path))
