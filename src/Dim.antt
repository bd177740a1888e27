-- ===== src/Dim.antt =====
-- Sequences of values for the arguments of a kernel (src/tpbcli/run/tpbcli-run-dim.c), where memory can
-- be allocated. Text is without its NUL; the classes of bytes are those of the C locale.
pub mod Sequence
pub mod Accepted
pub mod Lists
pub mod Expand
mod Tests
use tpbench.Prelude.{
  ℕ, zero, suc, ◌+◌, ◌-◌, Bool, true, false, not, ◌&&◌, ◌||◌, List, [], ◌∷◌, Option, none, some,
  leb, ltb, ◌==◌, if◌then◌else◌, Bytes, bytes_eq, codes, length, take, drop, map, ℤ, pos, negsuc,
}
use tpbench.Tags.{nil, strtok}

-- The arithmetic of `double`, and what the C library reads from a text: `strtod` gives the number and
-- what stands behind it, `strtol` the number as an `int`.
pub record Floats : Type 1 where
  pub Double : Type 0
  pub lt : Double → Double → Bool
  pub add : Double → Double → Double
  pub sub : Double → Double → Double
  pub mul : Double → Double → Double
  pub div : Double → Double → Double
  pub pow : Double → Double → Double
  pub equals_zero : Double → Bool
  pub strtod : Bytes → Double × Bytes
  pub strtol : Bytes → ℤ

pub isspace : ℕ → Bool
isspace c = c == 32 || (leb 9 c && leb c 13)

pub isalpha : ℕ → Bool
isalpha c = (leb 65 c && leb c 90) || (leb 97 c && leb c 122)

-- `trim_whitespace_dim`
pub skip_spaces : Bytes → Bytes
unfolding isspace
skip_spaces [] = []
skip_spaces (c ∷ cs) = let rest = skip_spaces cs in if isspace c then rest else c ∷ cs

pub cut_spaces : Bytes → Bytes
unfolding isspace
cut_spaces [] = []
cut_spaces (c ∷ cs) = let rest = cut_spaces cs in if isspace c && nil rest then [] else c ∷ rest

pub trim_whitespace : Bytes → Bytes
unfolding skip_spaces cut_spaces
trim_whitespace text = cut_spaces (skip_spaces text)

-- `find_matching_bracket`: what stands before the bracket, and behind it.
abbrev pub behind : ℕ → Option (Bytes × Bytes) → Option (Bytes × Bytes)
behind c none = none
behind c (some (a, b)) = some (c ∷ a, b)

pub matching_from : ℕ → ℕ → ℕ → Bytes → Option (Bytes × Bytes)
matching_from opens closes depth [] = none
matching_from opens closes depth (c ∷ cs) =
    let deeper = behind c (matching_from opens closes (depth + 1) cs) in
    let outer = behind c (matching_from opens closes (depth - 1) cs) in
    let same = behind c (matching_from opens closes depth cs) in
    if c == opens
    then deeper
    else if c == closes
    then (if depth == 1 then some ([], cs) else outer)
    else same

pub find_matching_bracket : ℕ → ℕ → Bytes → Option (Bytes × Bytes)
unfolding matching_from
find_matching_bracket opens closes text = matching_from opens closes 1 text

-- `strchr`: what stands before the byte, and behind it.
pub strchr : ℕ → Bytes → Option (Bytes × Bytes)
strchr b [] = none
strchr b (c ∷ cs) = let rest = behind c (strchr b cs) in if c == b then some ([], cs) else rest

abbrev pub has_byte : ℕ → Bytes → Bool
has_byte b [] = false
has_byte b (c ∷ cs) = c == b || has_byte b cs

-- `tpb_dim_op_t`
pub data DimOp : Type 0 where
  plus minus times over power : DimOp

pub op_of : Bytes → Option DimOp
op_of name =
    if bytes_eq name (codes "add")
    then some plus
    else if bytes_eq name (codes "sub")
    then some minus
    else if bytes_eq name (codes "mul")
    then some times
    else if bytes_eq name (codes "div")
    then some over
    else if bytes_eq name (codes "pow")
    then some power
    else none

abbrev pub bind : {A B : Type 0} → Option A → (A → Option B) → Option B
bind none f = none
bind (some a) f = f a

-- `nlim > 0 && n >= nlim`, and the room for the values
abbrev pub at_limit : ℤ → ℕ → Bool
at_limit (pos zero) n = false
at_limit (pos (suc k)) n = leb (suc k) n
at_limit (negsuc k) n = false

abbrev pub capacity : ℤ → ℕ
capacity (pos zero) = 4096
capacity (pos (suc k)) = suc k
capacity (negsuc k) = 4096

module _ (F : Floats) where
  open F use {Double, lt, equals_zero, strtod, strtol}

  -- `tpb_dim_config_t`
  pub record Recur : Type 0 where
    pub op : DimOp
    pub x : Double
    pub st : Double
    pub min : Double
    pub max : Double
    pub nlim : ℤ

  pub data Spec : Type 0 where
    listed : List Bytes → List Double → Bool → Spec
    recur : Recur → Spec

  pub record Config : Type 0 where
    pub parm_name : Bytes
    pub spec : Spec

  pub is_numeric_string : Bytes → Bool
  unfolding skip_spaces
  is_numeric_string text = not (nil text) && nil (skip_spaces (strtod text).1)

  abbrev pub any_text : List Bytes → Bool
  unfolding is_numeric_string
  any_text [] = false
  any_text (t ∷ ts) = not (is_numeric_string t) || any_text ts

  abbrev pub values_of : List Bytes → List Double
  values_of ts = map (λ t. (strtod t).0) ts

  -- `tpb_argp_parse_list`; `none` is TPBE_CLI_FAIL.
  abbrev pub list_of : List Bytes → Option Spec
  unfolding any_text
  list_of [] = none
  list_of (t ∷ ts) = some (listed (t ∷ ts) (values_of (t ∷ ts)) (any_text (t ∷ ts)))

  abbrev pub bracketed : ℕ → ℕ → Bytes → Option (Bytes × Bytes)
  unfolding find_matching_bracket
  bracketed opens closes [] = none
  bracketed opens closes (c ∷ cs) =
      if c == opens then find_matching_bracket opens closes cs else none

  pub parse_list : Bytes → Option Spec
  unfolding trim_whitespace strtok bracketed list_of
  parse_list text =
      bind (bracketed b'[' b']' (trim_whitespace (take 4095 text)))
        (λ r. list_of (map trim_whitespace (strtok r.0)))

  -- `tpb_argp_parse_dim_recur`
  abbrev pub checked_range : Recur → Option Spec
  checked_range r =
      if lt r.max r.min
      then none
      else if lt r.st r.min || lt r.max r.st
      then none
      else some (recur r)

  abbrev pub range_of : DimOp → Double → List Bytes → Option Spec
  unfolding trim_whitespace
  range_of op x (a ∷ b ∷ c ∷ d ∷ rest) = checked_range (record {
    op = op;
    x = x;
    st = (strtod (trim_whitespace a)).0;
    min = (strtod (trim_whitespace b)).0;
    max = (strtod (trim_whitespace c)).0;
    nlim = strtol (trim_whitespace d);
  })
  range_of op x _ = none

  abbrev pub operand_of : Bytes → Option Double
  unfolding strchr trim_whitespace
  operand_of text = bind (strchr b',' text) (λ r.
      if bytes_eq (trim_whitespace r.0) (codes "@")
      then some (strtod (trim_whitespace r.1)).0
      else none)

  pub parse_dim_recur : Bytes → Option Spec
  unfolding trim_whitespace strchr op_of find_matching_bracket operand_of bracketed strtok range_of
  parse_dim_recur text = bind (strchr b'(' (trim_whitespace (take 4095 text))) (λ named.
      bind (if leb 16 (length named.0) then none else op_of named.0) (λ op.
        bind (find_matching_bracket b'(' b')' named.1) (λ inside. bind (operand_of inside.0) (λ x.
          bind (bracketed b'(' b')' (trim_whitespace inside.1))
            (λ range. range_of op x (strtok range.0))))))

  -- `tpb_argp_parse_dim`
  abbrev pub spec_of : Bytes → Option Spec
  unfolding parse_list parse_dim_recur isalpha
  spec_of [] = none
  spec_of (c ∷ cs) =
      if c == b'('
      then none
      else if c == b'['
      then parse_list (c ∷ cs)
      else if isalpha c
      then parse_dim_recur (c ∷ cs)
      else none

  abbrev pub named_spec : Bytes → Bytes → Option Config
  unfolding spec_of
  named_spec name text =
      if has_byte b'{' text
      then none
      else bind (spec_of text) (λ s. some (record { parm_name = take 255 name; spec = s }))

  pub parse_dim : Bytes → Option Config
  unfolding trim_whitespace strchr named_spec
  parse_dim text =
      bind (strchr b'=' (trim_whitespace (take 4095 text)))
        (λ r. named_spec (trim_whitespace r.0) (trim_whitespace r.1))

  -- The next value of a sequence; there is none behind a division by zero.
  pub next_value : Recur → Double → Option Double
  next_value r current = elim r.op [
    | plus ↦ some (F.add current r.x)
    | minus ↦ some (F.sub current r.x)
    | times ↦ some (F.mul current r.x)
    | over ↦ if equals_zero r.x then none else some (F.div current r.x)
    | power ↦ some (F.pow current r.x)
  ]

  abbrev pub outside : Recur → Double → Bool
  outside r v = lt v r.min || lt r.max v

  -- The loop, with `left` places left and `n` values stored.
  abbrev pub then_rest : Option Double → (Double → List Double) → List Double
  then_rest none rest = []
  then_rest (some v) rest = rest v

  pub recur_loop : Recur → ℕ → ℕ → Double → List Double
  unfolding next_value
  recur_loop r zero n current = []
  recur_loop r (suc left) n current =
      let rest = then_rest (next_value r current) (λ v. recur_loop r left (n + 1) v) in
      if outside r current then [] else current ∷ (if at_limit r.nlim (n + 1) then [] else rest)

  -- `tpb_dim_generate_values`: `tpb_dim_values_t`
  pub record Values : Type 0 where
    pub parm_name : Bytes
    pub str_values : Option (List Bytes)
    pub values : List Double
    pub is_string : Bool

  pub generate_values : Config → Values
  unfolding recur_loop
  generate_values cfg = elim cfg.spec [
    | listed strs nums text ↦ record {
      parm_name = cfg.parm_name;
      str_values = some strs;
      values = nums;
      is_string = text;
    }
    | recur r ↦ record {
      parm_name = cfg.parm_name;
      str_values = none;
      values = recur_loop r (capacity r.nlim) 0 r.st;
      is_string = false;
    }
  ]

  -- `tpb_dim_get_total_count`
  pub get_total_count : Config → ℕ
  unfolding generate_values
  get_total_count cfg = elim cfg.spec [
    | listed strs nums text ↦ length strs
    | recur r ↦ length (generate_values cfg).values
  ]
