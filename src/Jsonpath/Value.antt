-- ===== src/Jsonpath/Value.antt =====
-- internal/jsonpath: documents, the walk along a path (Eval in jsonpath.go) and the readings of a value
-- (value.go). A document is as Decode gives it, so a number is its text. The members of an object
-- stand in some order, the one that a loop over the map takes.
pub mod Flat
use status_hub.Prelude.{
  ℕ, zero, suc, ◌+◌, ◌-◌, Bool, true, false, not, ◌&&◌, ◌||◌, ◌++◌, ◌∷◌, [], List, length, Option,
  none, some, ◌⊎◌, inl, inr, ◌==◌, if◌then◌else◌, nat_eq, ltb, leb, Text, text_Eq, codes, Dict,
  insert, decimal, ℤ, pos, negsuc,
}
use status_hub.Domain.Amount.{trim_space, trim_left, trim_right, is_zero, cut_point, parse_int64}
use status_hub.Jsonpath.{Step, key_step, index_step}

mutual
  pub data Json : Type 0 where
    null : Json
    boolean : Bool → Json
    number : Text → Json
    text : Text → Json
    array : Items → Json
    object : Members → Json

  pub data Items : Type 0 where
    no_items : Items
    item : Json → Items → Items

  pub data Members : Type 0 where
    no_members : Members
    member : Text → Json → Members → Members

pub data EvalError : Type 0 where
  missing : EvalError
  wrong_shape : EvalError

unfoldable pub items_length : Items → ℕ
items_length no_items = 0
items_length (item _ items) = suc (items_length items)

unfoldable pub item_at : ℕ → Items → EvalError ⊎ Json
item_at i no_items = inl missing
item_at zero (item v _) = inr v
item_at (suc i) (item _ items) = item_at i items

unfoldable pub member_of : Text → Members → EvalError ⊎ Json
member_of key no_members = inl missing
member_of key (member k v members) =
    let rest = member_of key members in if k == key then inr v else rest

-- A negative index counts from the end.
unfoldable pub item_from : ℤ → Items → EvalError ⊎ Json
item_from (pos i) items = item_at i items
item_from (negsuc i) items =
    if ltb i (items_length items) then item_at (items_length items - suc i) items else inl missing

unfoldable pub eval_step : Step → Json → EvalError ⊎ Json
eval_step (index_step i) (array items) = item_from i items
eval_step (index_step i) _ = inl wrong_shape
eval_step (key_step key) (object members) = member_of key members
eval_step (key_step key) _ = inl wrong_shape

unfoldable pub eval : List Step → Json → EvalError ⊎ Json
eval [] doc = inr doc
eval (step ∷ steps) doc = elim (eval_step step doc) [ inl e ↦ inl e | inr v ↦ eval steps v ]

unfoldable pub string_of : Json → Option Text
string_of (text s) = some s
string_of (number s) = some s
string_of (boolean true) = some (codes "true")
string_of (boolean false) = some (codes "false")
string_of null = none
string_of (array _) = none
string_of (object _) = none

unfoldable pub string_at : List Step → Json → EvalError ⊎ Text
string_at steps doc = elim (eval steps doc) [
  | inl e ↦ inl e
  | inr v ↦ elim (string_of v) [ none ↦ inl wrong_shape | some s ↦ inr s ]
]

-- A decimal text, when its fraction is zeros.
unfoldable pub int_of_text : Text → Option ℤ
int_of_text t =
    let (int, frac, has_frac) = cut_point (trim_space t) in
    if not has_frac
    then parse_int64 (trim_space t)
    else if trim_right is_zero (trim_left is_zero frac) == []
    then parse_int64 int
    else none

unfoldable pub int_of : Json → Option ℤ
int_of (number s) = parse_int64 s
int_of (text s) = int_of_text s
int_of null = none
int_of (boolean _) = none
int_of (array _) = none
int_of (object _) = none

-- Flatten's limits.
abbrev pub max_flatten_depth : ℕ
max_flatten_depth = 12

abbrev pub max_flatten_keys : ℕ
max_flatten_keys = 512

abbrev pub under : Text → Text → Text
under prefix k = if prefix == [] then k else prefix ++ (b'.' ∷ k)

abbrev pub at_index : Text → ℕ → Text
at_index prefix i = prefix ++ (b'[' ∷ (decimal i ++ b']' ∷ []))

abbrev pub is_full : ℕ → Dict Text Json → Bool
is_full depth out = ltb max_flatten_depth depth || leb max_flatten_keys (length out)

abbrev pub leaf : Text → Json → Dict Text Json → Dict Text Json
leaf prefix v out = if prefix == [] then out else insert prefix v out

unfoldable mutual
  pub flatten_value : Text → Json → ℕ → Dict Text Json → Dict Text Json
  flatten_value prefix (object members) depth out =
      let inside = flatten_members prefix members (depth + 1) out in
      if is_full depth out then out else inside
  flatten_value prefix (array items) depth out =
      let inside = flatten_items prefix items 0 (depth + 1) out in
      if is_full depth out then out else inside
  flatten_value prefix null depth out = if is_full depth out then out else leaf prefix null out
  flatten_value prefix (boolean b) depth out =
      if is_full depth out then out else leaf prefix (boolean b) out
  flatten_value prefix (number s) depth out =
      if is_full depth out then out else leaf prefix (number s) out
  flatten_value prefix (text s) depth out =
      if is_full depth out then out else leaf prefix (text s) out

  -- The loop over the members of an object.
  pub flatten_members : Text → Members → ℕ → Dict Text Json → Dict Text Json
  flatten_members prefix no_members depth out = out
  flatten_members prefix (member k v members) depth out =
      flatten_members prefix members depth (flatten_value (under prefix k) v depth out)

  -- The loop over the items of an array, from this index on.
  pub flatten_items : Text → Items → ℕ → ℕ → Dict Text Json → Dict Text Json
  flatten_items prefix no_items i depth out = out
  flatten_items prefix (item v items) i depth out =
      flatten_items prefix items (i + 1) depth (flatten_value (at_index prefix i) v depth out)

unfoldable pub flatten : Json → Dict Text Json
flatten doc = flatten_value [] doc 0 []
