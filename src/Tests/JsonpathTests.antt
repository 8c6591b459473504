-- ===== src/Tests/JsonpathTests.antt =====
-- Paths into one document.
use status_hub.Prelude.{
  ◌++◌, ◌≡◌, refl, ◌∷◌, [], List, length, none, some, inl, inr, arith, text_Eq, text_eq, codes,
  insert, decimal, digits, pos, negsuc,
}
use status_hub.Domain.Amount.{
  trim_space, trim_left, trim_right, is_space, parse_int64, take_sign, all_digits, is_digit,
  digits_value, cut_point,
}
use status_hub.Jsonpath.{
  malformed, Step, key_step, index_step, byte_length, trim_prefix, split_name, has_wildcard,
  name_step, next_step, followed_by, compile_loop, within_depth, compile_raw, compile,
}
use status_hub.Jsonpath.Spelling.{Spelling, double, dotted, quoted, indexed, spell}
use status_hub.Jsonpath.RoundTrip.{spell_all, compile-spell_all}
use status_hub.Jsonpath.Value.{
  Json, number, text, array, object, item, no_items, member, no_members, missing, eval, eval_step,
  item_from, item_at, items_length, member_of, int_of, int_of_text, flatten, flatten_value,
}

abbrev items : Json
items = array (item (number (codes "7")) (item (text (codes "5000.00")) no_items))

abbrev doc : Json
doc = object (member (codes "data") (object (member (codes "a.b") items no_members)) no_members)

abbrev last_item : List Step
last_item = key_step (codes "data") ∷ key_step (codes "a.b") ∷ index_step (negsuc 0) ∷ []

last_found : eval last_item doc ≡ inr (text (codes "5000.00"))
unfolding eval eval_step member_of item_from item_at items_length text_eq
last_found = refl

beyond_missing :
    eval (key_step (codes "data") ∷ key_step (codes "a.b") ∷ index_step (negsuc 2) ∷ []) doc
    ≡ inl missing
unfolding eval eval_step member_of item_from item_at items_length text_eq
beyond_missing = refl

whole_read : int_of (text (codes "5000.00")) ≡ some (pos 5000)
unfolding int_of int_of_text cut_point trim_space trim_left trim_right is_space parse_int64
    take_sign all_digits is_digit digits_value text_eq
whole_read = refl

fraction_refused : int_of (text (codes "5000.70")) ≡ none
unfolding int_of int_of_text cut_point trim_space trim_left trim_right is_space parse_int64
    take_sign all_digits is_digit digits_value text_eq
fraction_refused = refl

wildcard_refused : compile (codes "$.items.*") ≡ inl malformed
unfolding compile trim_space trim_left trim_right is_space compile_raw byte_length trim_prefix
    compile_loop next_step name_step split_name has_wildcard followed_by within_depth text_eq
wildcard_refused = refl

two_flattened : length (flatten doc) ≡ 2
unfolding flatten flatten_value insert text_eq decimal digits
two_flattened = refl

abbrev spelled : List Spelling
spelled = dotted (codes "data") ∷ quoted double (codes "a.b") ∷ indexed (negsuc 0) ∷ []

-- The text `$.data["a.b"][-1]`.
compile-spell_all_example :
    compile (b'$' ∷ spell_all spelled)
    ≡ inr (record {
      raw = codes "$.data[" ++ (34 ∷ codes "a.b" ++ (34 ∷ codes "][-1]"));
      steps = last_item;
    })
unfolding spell_all spell decimal digits byte_length is_space
compile-spell_all_example = compile-spell_all spelled refl (omega arith) (ground arith)
