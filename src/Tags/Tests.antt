-- ===== src/Tags/Tests.antt =====
-- Runs on tags.
use tpbench.Prelude.{[], ◌∷◌, some, List, Bytes, codes, ◌≡◌, refl}
use tpbench.Tags.{
  insert, sort, pieces, strtok, trim_start, trim_end, trim, toupper_check, accept_upper,
  accept_token, accept, put_token, join_rest, join, normalize_tags,
}
use tpbench.Tags.Normal.{IsNormal, normalize_tags-IsNormal}

normalized : normalize_tags 256 (some (codes " perf,aux , perf,,Aux")) ≡ some (codes "AUX,PERF")
unfolding insert sort pieces strtok trim_start trim_end trim toupper_check accept_upper accept_token
    accept put_token join_rest join normalize_tags
normalized = refl

normalize_tags-IsNormal_example : IsNormal 256 (codes " perf,aux , perf,,Aux") (codes "AUX,PERF")
normalize_tags-IsNormal_example =
    normalize_tags-IsNormal 256 (codes " perf,aux , perf,,Aux") (codes "AUX,PERF") normalized

abbrev two : List Bytes
two = codes "AUX" ∷ codes "PERF" ∷ []
