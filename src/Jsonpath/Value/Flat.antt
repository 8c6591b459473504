-- ===== src/Jsonpath/Value/Flat.antt =====
-- How much Flatten takes out of a document.
use status_hub.Prelude.{
  ℕ, ◌+◌, ◌≤◌, ◌∷◌, [], length, if◌then◌else◌, arith, Text, text_Eq, Dict, insert,
}
use status_hub.Jsonpath.Value.{
  Json, null, boolean, number, text, array, object, Items, no_items, item, Members, no_members,
  member, max_flatten_keys, is_full, leaf, under, at_index, flatten_value, flatten_members,
  flatten_items, flatten,
}

length-insert :
    {V : Type 0} (k : Text) (v : V) (m : Dict Text V) → length (insert k v m) ≤ length m + 1
unfolding insert
length-insert k v [] = omega arith
length-insert k v ((j, u) ∷ m) = ground (arith, length-insert k v m)

leaf-bounded :
    (prefix : Text) (v : Json) (depth : ℕ) (out : Dict Text Json)
    → length out ≤ max_flatten_keys
    → length (if is_full depth out then out else leaf prefix v out) ≤ max_flatten_keys
leaf-bounded prefix v depth out h = ground (arith, h, length-insert prefix v out)

inside-bounded :
    (depth : ℕ) (out inside : Dict Text Json)
    → length out ≤ max_flatten_keys
    → length inside ≤ max_flatten_keys
    → length (if is_full depth out then out else inside) ≤ max_flatten_keys
inside-bounded depth out inside h k = ground (arith, h, k)

mutual
  unfolding flatten_value flatten_members flatten_items

  flatten_value-bounded :
      (prefix : Text) (v : Json) (depth : ℕ) (out : Dict Text Json)
      → length out ≤ max_flatten_keys
      → length (flatten_value prefix v depth out) ≤ max_flatten_keys
  flatten_value-bounded prefix (object members) depth out h =
      inside-bounded depth out (flatten_members prefix members (depth + 1) out) h
        (flatten_members-bounded prefix members (depth + 1) out h)
  flatten_value-bounded prefix (array items) depth out h =
      inside-bounded depth out (flatten_items prefix items 0 (depth + 1) out) h
        (flatten_items-bounded prefix items 0 (depth + 1) out h)
  flatten_value-bounded prefix null depth out h = leaf-bounded prefix null depth out h
  flatten_value-bounded prefix (boolean b) depth out h = leaf-bounded prefix (boolean b) depth out h
  flatten_value-bounded prefix (number s) depth out h = leaf-bounded prefix (number s) depth out h
  flatten_value-bounded prefix (text s) depth out h = leaf-bounded prefix (text s) depth out h

  flatten_members-bounded :
      (prefix : Text) (members : Members) (depth : ℕ) (out : Dict Text Json)
      → length out ≤ max_flatten_keys
      → length (flatten_members prefix members depth out) ≤ max_flatten_keys
  flatten_members-bounded prefix no_members depth out h = h
  flatten_members-bounded prefix (member k v members) depth out h =
      flatten_members-bounded prefix members depth (flatten_value (under prefix k) v depth out)
        (flatten_value-bounded (under prefix k) v depth out h)

  flatten_items-bounded :
      (prefix : Text) (items : Items) (i depth : ℕ) (out : Dict Text Json)
      → length out ≤ max_flatten_keys
      → length (flatten_items prefix items i depth out) ≤ max_flatten_keys
  flatten_items-bounded prefix no_items i depth out h = h
  flatten_items-bounded prefix (item v items) i depth out h =
      flatten_items-bounded prefix items (i + 1) depth
        (flatten_value (at_index prefix i) v depth out)
        (flatten_value-bounded (at_index prefix i) v depth out h)

-- Whatever the document, at most 512 paths are taken out of it.
pub length-flatten : (doc : Json) → length (flatten doc) ≤ max_flatten_keys
unfolding flatten
length-flatten doc = flatten_value-bounded [] doc 0 [] (omega arith)
