-- ===== src/Tags.antt =====
-- The tags of arguments and outputs (src/corelib/tpb-tag-norm.c). A C string is the list of its
-- characters without the NUL, a NULL pointer is `none`; what stands in `dst` after -1 is left out.
pub mod Order
pub mod Normal
pub mod Display
mod Tests
use tpbench.Prelude.{
  ℕ, zero, suc, ◌+◌, ◌-◌, ◌*◌, ◌≤◌, ◌<◌, Bool, true, false, not, ◌&&◌, ◌||◌, List, [], ◌∷◌, ◌++◌,
  Option, none, some, leb, ltb, ◌==◌, if◌then◌else◌, Bytes, length, take, bytes_eq,
}

abbrev pub comma : ℕ
comma = 44

abbrev pub colon : ℕ
colon = 58

abbrev pub nil : Bytes → Bool
nil [] = true
nil (c ∷ cs) = false

-- `strcmp(a, b) < 0`, the order of `_sf_tag_token_cmp`.
abbrev pub before : Bytes → Bytes → Bool
before [] [] = false
before [] (y ∷ ys) = true
before (x ∷ xs) [] = false
before (x ∷ xs) (y ∷ ys) = ltb x y || ((x == y) && before xs ys)

-- `qsort` by this order, on tokens that are all different.
pub insert : Bytes → List Bytes → List Bytes
insert x [] = x ∷ []
insert x (y ∷ ys) = let rest = insert x ys in if before x y then x ∷ y ∷ ys else y ∷ rest

pub sort : List Bytes → List Bytes
unfolding insert
sort [] = []
sort (x ∷ xs) = insert x (sort xs)

-- The tokens that `strtok_r` finds between commas.
abbrev cons_first : ℕ → List Bytes → List Bytes
cons_first c [] = (c ∷ []) ∷ []
cons_first c (p ∷ ps) = (c ∷ p) ∷ ps

pieces : Bytes → List Bytes
pieces [] = [] ∷ []
pieces (c ∷ cs) = let ps = pieces cs in if c == comma then [] ∷ ps else cons_first c ps

abbrev some_only : List Bytes → List Bytes
some_only [] = []
some_only (t ∷ ts) = let rest = some_only ts in if nil t then rest else t ∷ rest

unfoldable pub strtok : Bytes → List Bytes
unfolding pieces
strtok cs = some_only (pieces cs)

-- The two loops that cut off spaces and tabs.
abbrev is_blank : ℕ → Bool
is_blank c = (c == 32) || (c == 9)

trim_start : Bytes → Bytes
trim_start [] = []
trim_start (c ∷ cs) = let rest = trim_start cs in if is_blank c then rest else c ∷ cs

trim_end : Bytes → Bytes
trim_end [] = []
trim_end (c ∷ cs) = let rest = trim_end cs in if is_blank c && nil rest then [] else c ∷ rest

pub trim : Bytes → Bytes
unfolding trim_start trim_end
trim cs = trim_end (trim_start cs)

-- `toupper` of the C locale.
abbrev pub toupper : ℕ → ℕ
toupper c = if leb 97 c && leb c 122 then c - 32 else c

abbrev cons_some : ℕ → Option Bytes → Option Bytes
cons_some c none = none
cons_some c (some cs) = some (c ∷ cs)

-- `_sf_toupper_check`
pub toupper_check : Bytes → Option Bytes
toupper_check [] = some []
toupper_check (c ∷ cs) =
    let rest = toupper_check cs in if c == colon then none else cons_some (toupper c) rest

-- The search for a token among those already accepted.
abbrev pub has : Bytes → List Bytes → Bool
has t [] = false
has t (x ∷ xs) = bytes_eq x t || has t xs

abbrev pub max_tokens : ℕ
max_tokens = 64

pub accept_upper : List Bytes → Option Bytes → Option (List Bytes)
accept_upper ts none = none
accept_upper ts (some t) =
    if has t ts then some ts else if leb max_tokens (length ts) then none else some (ts ++ (t ∷ []))

-- A turn of the loop over the tokens, and the loop; `none` is -1.
pub accept_token : List Bytes → Bytes → Option (List Bytes)
unfolding accept_upper
accept_token ts tok =
    let t = trim tok in if nil t then some ts else accept_upper ts (toupper_check t)

pub accept : Option (List Bytes) → List Bytes → Option (List Bytes)
unfolding accept_token
accept none toks = none
accept (some ts) [] = some ts
accept (some ts) (tok ∷ toks) = accept (accept_token ts tok) toks

-- The loop that writes the tokens with `sep` between them; `dst` has `size` bytes.
put_token : ℕ → Bytes → Bytes → Option Bytes
put_token size out t = if leb size (length out + length t) then none else some (out ++ t)

abbrev put_sep : ℕ → Bytes → Bytes → Option Bytes
put_sep size out sep = if leb size (length out + length sep) then none else some (out ++ sep)

abbrev then_token : ℕ → Option Bytes → Bytes → Option Bytes
then_token size none t = none
then_token size (some out) t = put_token size out t

pub join_rest : ℕ → Bytes → Option Bytes → List Bytes → Option Bytes
unfolding put_token
join_rest size sep none ts = none
join_rest size sep (some out) [] = some out
join_rest size sep (some out) (t ∷ ts) =
    join_rest size sep (then_token size (put_sep size out sep) t) ts

pub join : ℕ → Bytes → List Bytes → Option Bytes
unfolding join_rest put_token
join size sep [] = some []
join size sep (t ∷ ts) = join_rest size sep (put_token size [] t) ts

abbrev pub join_sorted : ℕ → Option (List Bytes) → Option Bytes
join_sorted size none = none
join_sorted size (some ts) = join size (comma ∷ []) (sort ts)

-- `_sf_normalize_tags`; `scratch` holds 255 characters.
pub normalize_tags : ℕ → Option Bytes → Option Bytes
unfolding strtok accept sort join
normalize_tags size none = if size == 0 then none else some []
normalize_tags size (some raw) =
    if size == 0 then none else join_sorted size (accept (some []) (strtok (take 255 raw)))

abbrev has_colon : Bytes → Bool
has_colon [] = false
has_colon (c ∷ cs) = (c == colon) || has_colon cs

-- `_sf_validate_header_name`, `true` for 0.
pub validate_header_name : Option Bytes → Bool
validate_header_name none = false
validate_header_name (some name) = not (nil name) && (leb (length name) 255 && not (has_colon name))

-- `_sf_validate_user_tags`, `true` for 0.
pub validate_user_tags : Option Bytes → Bool
validate_user_tags none = true
validate_user_tags (some tag) = leb (length tag) 191 && not (has_colon tag)

abbrev combine : Option Bytes → Bytes → Bytes
combine none sys_tag = take 319 sys_tag
combine (some []) sys_tag = take 319 sys_tag
combine (some (c ∷ cs)) sys_tag = take 319 ((c ∷ cs) ++ (comma ∷ sys_tag))

-- `_sf_finalize_role_tags`
pub finalize_role_tags : ℕ → Option Bytes → Option Bytes → Option Bytes
unfolding normalize_tags validate_user_tags
finalize_role_tags size user_tag none = none
finalize_role_tags size user_tag (some sys_tag) =
    if (size == 0) || nil sys_tag
    then none
    else if not (validate_user_tags user_tag)
    then none
    else normalize_tags size (some (combine user_tag sys_tag))

-- `_sf_format_tags_display`
pub format_tags_display : ℕ → Option Bytes → Option Bytes
unfolding strtok join
format_tags_display size none = if size == 0 then none else some []
format_tags_display size (some stored) =
    if size == 0 then none else join size (comma ∷ 32 ∷ []) (strtok stored)
