-- ===== src/Access/Urls.antt =====
-- The URLs of requests: 02_Util/src/authorization/rbac/UrlMatcher.ts, and normalizeUrl of
-- RbacRulesLoader.ts beside it.
use Prim.Native.Char.{code}
use Prim.Native.String.{String, [], ◌∷◌}
use rexharge_citrineos_core.Prelude.{
  ℕ, Bool, true, false, List, str_eq, if◌then◌else◌, ◌==◌, ◌&&◌, ◌||◌,
}
use rexharge_citrineos_core.Prelude.Text.{concat, split}

-- s.split(sep)[0]
unfoldable pub before : ℕ → String → String
before sep [] = ""
before sep (c ∷ s) = let rest = before sep s in if code c == sep then "" else c ∷ rest

-- s.startsWith(t)
unfoldable pub begins_with : String → String → Bool
begins_with s [] = true
begins_with [] (d ∷ t) = false
begins_with (c ∷ s) (d ∷ t) = code c == code d && begins_with s t

-- s.endsWith(t)
unfoldable pub ends_with : String → String → Bool
ends_with [] t = str_eq [] t
ends_with (c ∷ s) t = str_eq (c ∷ s) t || ends_with s t

-- s.slice(0, -1)
unfoldable pub without_last : String → String
without_last [] = ""
without_last (c ∷ []) = ""
without_last (c ∷ d ∷ s) = c ∷ without_last (d ∷ s)

-- cleanUrl.length > 1 && cleanUrl.endsWith('/')
unfoldable pub has_trailing_slash : String → Bool
unfolding ends_with
has_trailing_slash [] = false
has_trailing_slash (c ∷ []) = false
has_trailing_slash (c ∷ d ∷ s) = ends_with (c ∷ d ∷ s) "/"

-- the two steps of normalizeUrl behind the first
unfoldable pub without_trailing_slash : String → String
unfolding has_trailing_slash without_last
without_trailing_slash s = if has_trailing_slash s then without_last s else s

unfoldable pub with_leading_slash : String → String
unfolding begins_with
with_leading_slash s = if begins_with s "/" then s else concat "/" s

-- normalizeUrl
unfoldable pub normalize_url : String → String
unfolding before without_trailing_slash with_leading_slash
normalize_url url = with_leading_slash (without_trailing_slash (before b'#' (before b'?' url)))

-- url.split('/').filter(Boolean)
unfoldable pub non_empty : List String → List String
non_empty List.[] = List.[]
non_empty (List.◌∷◌ s l) = let rest = non_empty l in if str_eq s "" then rest else List.◌∷◌ s rest

unfoldable pub segments : String → List String
unfolding split non_empty
segments s = non_empty (split b'/' s)

-- the loop over the segments, with the test of their numbers before it
unfoldable pub match_segments : List String → List String → Bool
unfolding begins_with
match_segments List.[] List.[] = true
match_segments List.[] (List.◌∷◌ p ps) = false
match_segments (List.◌∷◌ u us) List.[] = false
match_segments (List.◌∷◌ u us) (List.◌∷◌ p ps) =
    (begins_with p ":" || str_eq p u) && match_segments us ps

-- UrlMatcher.match
unfoldable pub url_match : String → String → Bool
unfolding ends_with without_last begins_with segments match_segments
url_match url pattern_text =
    if str_eq url pattern_text
    then true
    else if ends_with pattern_text "/*"
    then str_eq url (without_last pattern_text) || begins_with url (without_last pattern_text)
    else match_segments (segments url) (segments pattern_text)
