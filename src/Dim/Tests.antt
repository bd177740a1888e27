-- ===== src/Dim/Tests.antt =====
-- Runs with natural numbers in the place of `double`.
use tpbench.Prelude.{
  ℕ, ◌+◌, ◌-◌, ◌*◌, ◌/◌, ◌^◌, ◌≤◌, ◌<◌, map, false, ◌&&◌, List, [], ◌∷◌, none, some, ◌≡◌, refl,
  arith, leb, ltb, ◌==◌, if◌then◌else◌, Bytes, codes, length, pos,
}
use tpbench.Dim.{
  Floats, op_of, plus, minus, times, over, power, Recur, recur, listed, Config, trim_whitespace,
  parse_list, parse_dim, Values, generate_values, values_of, any_text,
}
use tpbench.Dim.Sequence.Meaning.{zero_limit, AreValues, generate_values-AreValues}
use tpbench.Dim.Accepted.{parse_dim-generate_values}
use tpbench.Dim.Lists.{list_text, parse_list-list_text}
use tpbench.Dim.Expand.{Driver, expand_cartesian}
use tpbench.Dim.Expand.Product.{size}
use tpbench.Dim.Expand.Meaning.{backwards, product, Expands, expand_cartesian_lem}
use tpbench.Dim.Expand.One.{parse_kargs_dim, flush_pending_dims, expand_dim_handles}
use tpbench.Dim.Expand.One.Wait.{Waits, nothing, one_more, flush_pending_dims_lem}

-- The digits at the front of a text.
abbrev read_digits : ℕ → Bytes → ℕ × Bytes
read_digits n [] = (n, [])
read_digits n (c ∷ cs) =
    let rest = read_digits (10 * n + (c - 48)) cs in
    if leb 48 c && leb c 57 then rest else (n, c ∷ cs)

abbrev naturals : Floats
naturals = record {
  Double = ℕ;
  lt = ltb;
  add = λ a b. a + b;
  sub = λ a b. a - b;
  mul = λ a b. a * b;
  div = λ a b. a / b;
  pow = λ a b. a ^ b;
  equals_zero = λ a. a == 0;
  strtod = read_digits 0;
  strtol = λ t. pos (read_digits 0 t).0;
}

abbrev doubling : Recur naturals
doubling = record { op = times; x = 2; st = 16; min = 16; max = 128; nlim = pos 0 }

abbrev doubling_cfg : Config naturals
doubling_cfg = record { parm_name = codes "size"; spec = recur doubling }

-- The words for the operators.
words :
    map op_of
      (codes "add" ∷ codes "sub" ∷ codes "mul" ∷ codes "div" ∷ codes "pow" ∷ codes "mod" ∷ [])
    ≡ some plus ∷ some minus ∷ some times ∷ some over ∷ some power ∷ none ∷ []
unfolding op_of
words = refl

parsed : parse_dim naturals (codes " size = mul(@, 2)(16,16,128,0) ") ≡ some doubling_cfg
unfolding parse_dim
parsed = refl

generated : (generate_values naturals doubling_cfg).values ≡ 16 ∷ 32 ∷ 64 ∷ 128 ∷ []
unfolding generate_values
generated = refl

not_nested : parse_dim naturals (codes "a=[1]{b=[2]}") ≡ none
unfolding parse_dim
not_nested = refl

generate_values-AreValues_example :
    AreValues naturals doubling 4096 16
      (generate_values naturals (record { parm_name = codes "size"; spec = recur doubling })).values
generate_values-AreValues_example =
    generate_values-AreValues naturals (codes "size") doubling 4096 zero_limit

parse_dim-generate_values_example : 1 ≤ length (generate_values naturals doubling_cfg).values
parse_dim-generate_values_example =
    parse_dim-generate_values naturals (codes " size = mul(@, 2)(16,16,128,0) ") doubling_cfg parsed

trimmed :
    (trim_whitespace (codes "float") ≡ codes "float")
    × (trim_whitespace (codes "fp 16") ≡ codes "fp 16")
unfolding trim_whitespace
trimmed = (refl, refl)

parse_list-list_text_example :
    parse_list naturals (list_text (codes "float" ∷ codes "fp 16" ∷ []))
    ≡ some (
        listed
          (codes "float" ∷ codes "fp 16" ∷ [])
          (values_of naturals (codes "float" ∷ codes "fp 16" ∷ []))
          (any_text naturals (codes "float" ∷ codes "fp 16" ∷ [])))
parse_list-list_text_example =
    parse_list-list_text naturals (codes "float") (codes "fp 16" ∷ []) refl (refl, (refl, tt))
      (refl, (refl, tt)) (trimmed.0, (trimmed.1, tt)) (omega arith)

-- A driver that notes its calls, the last one first.
abbrev Notes : Type 0
Notes = List (Bytes × Bytes)

abbrev driver : Driver Notes
driver = record {
  add_handle = λ s. (0, (codes "add", []) ∷ s);
  copy_hdl_from = λ n s. (0, (codes "copy", n ∷ []) ∷ s);
  set_hdl_karg = λ name text s. (0, (name, text) ∷ s);
  set_hdl_env = λ name text s. (0, (name, text) ∷ s);
  get_current_hdl_idx = λ s. 3;
}

abbrev show : ℕ → Bytes
show n = (48 + n) ∷ []

abbrev dim : Bytes → List ℕ → Values naturals
dim name vs = record { parm_name = name; str_values = none; values = vs; is_string = false }

abbrev dims : List (Values naturals)
dims = dim (codes "a") (1 ∷ 2 ∷ []) ∷ dim (codes "b") (5 ∷ 6 ∷ []) ∷ []

expanded :
    expand_cartesian naturals show driver dims []
    ≡ some (
      0,
      (codes "a", codes "2")
          ∷ (codes "b", codes "6")
          ∷ (codes "copy", 3 ∷ [])
          ∷ (codes "add", [])
          ∷ (codes "a", codes "2")
          ∷ (codes "b", codes "5")
          ∷ (codes "copy", 3 ∷ [])
          ∷ (codes "add", [])
          ∷ (codes "a", codes "1")
          ∷ (codes "b", codes "6")
          ∷ (codes "copy", 3 ∷ [])
          ∷ (codes "add", [])
          ∷ (codes "a", codes "1")
          ∷ (codes "b", codes "5")
          ∷ [],
    )
unfolding expand_cartesian
expanded = refl

expand_cartesian_lem_example :
    (e : ℕ) × (s' : Notes) × (expand_cartesian naturals show driver dims [] ≡ some (e, s'))
    × Expands driver (product naturals show (backwards dims)) [] e s'
expand_cartesian_lem_example =
    expand_cartesian_lem naturals show driver dims [] (omega arith, (omega arith, tt)) (omega arith)

-- Two options `--kargs-dim`, and then the next kernel.
abbrev option_a : Config naturals
option_a = record {
  parm_name = codes "a";
  spec = listed (codes "1" ∷ codes "2" ∷ []) (1 ∷ 2 ∷ []) false;
}

abbrev option_b : Config naturals
option_b = record {
  parm_name = codes "b";
  spec = listed (codes "5" ∷ codes "6" ∷ []) (5 ∷ 6 ∷ []) false;
}

abbrev waiting : List (Config naturals)
waiting = option_a ∷ option_b ∷ []

waits : Waits naturals waiting
unfolding parse_kargs_dim
waits = one_more (codes "b=[5,6]") (one_more (codes "a=[1,2]") nothing refl) refl

few_values : size naturals show driver (backwards (map (generate_values naturals) waiting)) < 2 ^ 31
unfolding generate_values
few_values = omega arith

not_alone :
    (c : Config naturals) → waiting ≡ c ∷ [] → (expand_dim_handles naturals show driver c []).0 ≡ 0
not_alone c e = cc

flush_pending_dims_lem_example :
    (e : ℕ) × (s' : Notes) × (flush_pending_dims naturals show driver waiting [] ≡ some ([], s'))
    × Expands driver
        (product naturals show (backwards (map (generate_values naturals) waiting)))
        []
        e
        s'
flush_pending_dims_lem_example =
    flush_pending_dims_lem naturals show driver waiting [] waits few_values not_alone
