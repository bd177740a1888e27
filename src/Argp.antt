-- ===== src/Argp.antt =====
-- The tree of the arguments of a command line (src/tpbcli/argp/tpbcli-argp.c). A pointer to a node is
-- the way to it: at each depth the number of siblings before it, the deepest first.
pub mod Check
pub mod Parse
pub mod Writes
pub mod Names
pub mod Add
pub mod Find
use tpbench.Prelude.{
  ℕ, zero, suc, ◌+◌, ◌/◌, ◌%◌, ◌^◌, Bool, true, false, not, ◌&&◌, ◌||◌, List, [], ◌∷◌, Option, none,
  some, ◌==◌, if◌then◌else◌, Bytes, bytes_eq, length, ℤ, pos, negsuc,
}

-- `tpbcli_arg_type_t`
pub data ArgType : Type 0 where
  cmd opt flag : ArgType

abbrev pub is_cmd : ArgType → Bool
is_cmd cmd = true
is_cmd opt = false
is_cmd flag = false

-- `tpbcli_argnode_t` without its pointers to other nodes. A name is never NULL. The handlers are
-- numbers, which the caller knows; what they do with `user_data` is theirs.
pub record Info : Type 0 where
  pub name : Bytes
  pub short_name : Option Bytes
  pub desc : Option Bytes
  pub type : ArgType
  pub flags : ℕ
  pub depth : ℕ
  pub max_chosen : ℤ
  pub conflict_opts : List Bytes
  pub help_fn : Option ℕ
  pub parse_fn : Option ℕ
  pub preset_value : Option Bytes
  pub is_set : Bool
  pub chosen_count : ℕ
  pub parsed_value : Option Bytes

-- A pointer to a first sibling: `node info first_child next_sibling`, or NULL.
pub data Nodes : Type 0 where
  null : Nodes
  node : Info → Nodes → Nodes → Nodes

abbrev pub has_nodes : Nodes → Bool
has_nodes null = false
has_nodes (node i k s) = true

-- `(flags & (1u << bit)) != 0u`
pub has_flag : ℕ → ℕ → Bool
has_flag flags bit = (flags / 2 ^ bit) % 2 == 1

abbrev pub is_exclusive : Info → Bool
unfolding has_flag
is_exclusive i = has_flag i.flags 0

abbrev pub is_mandatory : Info → Bool
unfolding has_flag
is_mandatory i = has_flag i.flags 1

abbrev pub has_preset : Info → Bool
unfolding has_flag
has_preset i = has_flag i.flags 2

abbrev pub delegates : Info → Bool
unfolding has_flag
delegates i = has_flag i.flags 3

abbrev pub is_zero : ℤ → Bool
is_zero (pos zero) = true
is_zero (pos (suc n)) = false
is_zero (negsuc n) = false

abbrev pub named : Bytes → Info → Bool
named name i = bytes_eq i.name name

abbrev pub short_eq : Option Bytes → Bytes → Bool
short_eq none token = false
short_eq (some s) token = bytes_eq s token

abbrev pub answers : Bytes → Info → Bool
answers token i = named token i || short_eq i.short_name token

-- The first sibling that passes a test, with the number of siblings before it.
abbrev pub behind_one : Option (ℕ × Info) → Option (ℕ × Info)
behind_one none = none
behind_one (some (n, i)) = some (suc n, i)

pub first : (Info → Bool) → Nodes → Option (ℕ × Info)
first test null = none
first test (node i k s) =
    let rest = behind_one (first test s) in if test i then some (zero, i) else rest

-- `_sf_find_child`, `_sf_find_child_by_name` and `_sf_find_max_chosen_zero_child`, on the children
pub find_child : Bytes → Nodes → Option (ℕ × Info)
unfolding first
find_child token = first (answers token)

pub find_child_by_name : Bytes → Nodes → Option (ℕ × Info)
unfolding first
find_child_by_name name = first (named name)

pub find_max_chosen_zero_child : Bytes → Nodes → Option (ℕ × Info)
unfolding first
find_max_chosen_zero_child token = first (λ i. is_zero i.max_chosen && answers token i)

-- `_sf_reset_parse_state` of each sibling
abbrev pub cleared : Info → Info
cleared i = record i { is_set = false; chosen_count = 0; parsed_value = none }

pub reset : Nodes → Nodes
reset null = null
reset (node i k s) = node (cleared i) (reset k) (reset s)

-- The children of a sibling, and of the node that a pointer leads to.
pub kids_of : ℕ → Nodes → Nodes
kids_of n null = null
kids_of zero (node i k s) = k
kids_of (suc n) (node i k s) = kids_of n s

pub children : List ℕ → Nodes → Nodes
unfolding kids_of
children [] c = c
children (n ∷ way) c = kids_of n (children way c)

pub info_of : ℕ → Nodes → Option Info
info_of n null = none
info_of zero (node i k s) = some i
info_of (suc n) (node i k s) = info_of n s

-- A write to a sibling, to its children, and to the children of the node that a pointer leads to.
pub write_info : ℕ → (Info → Info) → Nodes → Nodes
write_info n f null = null
write_info zero f (node i k s) = node (f i) k s
write_info (suc n) f (node i k s) = node i k (write_info n f s)

pub write_kids : ℕ → (Nodes → Nodes) → Nodes → Nodes
write_kids n f null = null
write_kids zero f (node i k s) = node i (f k) s
write_kids (suc n) f (node i k s) = node i k (write_kids n f s)

pub write_at : List ℕ → (Nodes → Nodes) → Nodes → Nodes
unfolding write_kids
write_at [] f c = f c
write_at (n ∷ way) f c = write_at way (write_kids n f) c

-- `tpbcli_argconf_t`
pub record Conf : Type 0 where
  pub name : Bytes
  pub short_name : Option Bytes
  pub desc : Option Bytes
  pub type : ArgType
  pub flags : ℕ
  pub max_chosen : ℤ
  pub parse_fn : Option ℕ
  pub help_fn : Option ℕ
  pub preset_value : Option Bytes
  pub conflict_opts : List Bytes

pub new_info : Conf → ℕ → Info
new_info conf depth = record {
  name = conf.name;
  short_name = conf.short_name;
  desc = conf.desc;
  type = conf.type;
  flags = conf.flags;
  depth = depth;
  max_chosen = conf.max_chosen;
  conflict_opts = conf.conflict_opts;
  help_fn = conf.help_fn;
  parse_fn = conf.parse_fn;
  preset_value = conf.preset_value;
  is_set = false;
  chosen_count = 0;
  parsed_value = none;
}

pub append_node : Info → Nodes → Nodes
append_node new null = node new null null
append_node new (node i k s) = node i k (append_node new s)

-- `tpbcli_add_arg` to the node at the end of the way, whose depth is the length of the way, where
-- `calloc` succeeds; `none` where the name exists.
abbrev pub if_new : Option (ℕ × Info) → Nodes → Option Nodes
if_new none added = some added
if_new (some found) added = none

pub add_arg : List ℕ → Conf → Nodes → Option Nodes
unfolding children find_child_by_name write_at append_node new_info
add_arg way conf nodes =
    if_new (find_child_by_name conf.name (children way nodes))
      (write_at way (append_node (new_info conf (length way + 1))) nodes)

-- `_sf_find_arg_dfs` of each sibling from the first on: a node before its children, and these before
-- the next sibling.
abbrev pub or_else : Option Info → Option Info → Option Info
or_else none other = other
or_else (some i) other = some i

pub find_arg_dfs : ℕ → Bytes → Nodes → Option Info
find_arg_dfs target_depth name null = none
find_arg_dfs target_depth name (node i k s) =
    let rest = or_else (find_arg_dfs target_depth name k) (find_arg_dfs target_depth name s) in
    if i.depth == target_depth && answers name i then some i else rest

-- `tpbcli_find_arg` from a node with its children
pub find_arg : Info → Nodes → Bytes → ℕ → Option Info
unfolding find_arg_dfs
find_arg start kids name offset = find_arg_dfs (start.depth + offset) name (node start kids null)
