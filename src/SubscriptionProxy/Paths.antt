-- ===== src/SubscriptionProxy/Paths.antt =====
-- The helpers on paths, file names and URLs of src/subscription_proxy.rs.
use kelinode_rs.Prelude.{
  ℕ, Bool, false, not, ◌||◌, Option, none, some, List, [], ◌∷◌, ◌++◌, ◌==◌, if◌then◌else◌, is_empty,
  last?,
}
use kelinode_rs.Prelude.Text.{
  Text, text, text_eq, trim, trim_start, trim_end, trim_matches, starts_with, strip_prefix, split,
  has_char,
}
use kelinode_rs.Prelude.Str.{contains}

abbrev pub is_slash : ℕ → Bool
is_slash c = c == b'/'

abbrev pub starts_with_slash : Text → Bool
starts_with_slash s = starts_with (b'/' ∷ []) s

abbrev pub first_non_empty : Text → Text → Text
first_non_empty value fallback = if is_empty value then fallback else value

unfoldable pub trim_subscription_path : Text → Text
trim_subscription_path value = trim_matches is_slash (trim value)

unfoldable pub trim_trailing_slashes : Text → Text
trim_trailing_slashes value = trim_end is_slash value

-- `normalize_proxy_path_prefix` of a value that is trimmed.
abbrev pub rooted : Text → Text
rooted value =
    if is_empty value || text_eq value (text "/")
    then text "/"
    else if starts_with_slash value
    then value
    else b'/' ∷ value

unfoldable pub normalize_proxy_path_prefix : Text → Text
normalize_proxy_path_prefix value = rooted (trim_end is_slash (trim value))

unfoldable pub join_posix_path : Text → Text → Text
join_posix_path root child = trim_end is_slash root ++ b'/' ∷ trim_start is_slash child

-- `rsplit('/').next()`
abbrev pub last_part : Text → Text
last_part path = elim (last? (split b'/' path)) [ none ↦ [] | some part ↦ part ]

unfoldable pub validation_file_name : Text → Option Text
validation_file_name path =
    let name = trim (last_part (trim_end is_slash (trim path))) in
    if is_empty name
      || (text_eq name (text ".") || (text_eq name (text "..") || has_char b'\\' name))
    then none
    else some name

unfoldable pub challenge_request_file_name : Text → Option Text
challenge_request_file_name path =
    let name = trim path in
    if is_empty name || (has_char b'/' name || (contains (text "..") name || has_char b'\\' name))
    then none
    else some name

unfoldable pub validation_content_string : Text → Text
validation_content_string content = trim content ++ text "\n"

-- `a.or_else(|| b)`
abbrev or_else : Option Text → Option Text → Option Text
or_else none other = other
or_else (some s) other = some s

abbrev has_host : List Text → Bool
has_host [] = false
has_host (host ∷ _) = not (is_empty (trim host))

unfoldable pub is_valid_upstream_base_url : Text → Bool
is_valid_upstream_base_url value =
    elim (or_else (strip_prefix (text "https://") value) (strip_prefix (text "http://") value)) [
      | none ↦ false
      | some after_scheme ↦ has_host (split b'/' after_scheme)
    ]
