-- ===== src/Jsonpath/Bounds.antt =====
-- What an accepted path is limited to.
use status_hub.Prelude.{
  ◌+◌, ◌≤◌, ◌≡◌, false, [], List, length, ◌⊎◌, inl, inr, Bool-cases, arith, ltb, Text, text_Eq,
  text_eq,
}
use status_hub.Domain.Amount.{trim_space}
use status_hub.Jsonpath.{
  PathError, Step, CompiledPath, max_depth, max_path_length, byte_length, trim_prefix, compile_loop,
  within_depth, compile_raw, compile,
}

module _ (raw : Text) (p : CompiledPath) where
  abbrev IsLimited : Type 0
  IsLimited = (p.raw ≡ raw) × (length p.steps ≤ max_depth) × (byte_length p.raw ≤ max_path_length)

  within_depth-limited :
      (r : PathError ⊎ List Step)
      → byte_length raw ≤ max_path_length
      → within_depth raw r ≡ inr p
      → IsLimited
  unfolding within_depth
  within_depth-limited (inl e) short h = absurd (clash h)
    where
      clash : inl e ≡ inr p → ⊥
      clash k = cc
  within_depth-limited (inr steps) short h = ground (arith, short, h)

  compile_raw-limited : compile_raw raw ≡ inr p → IsLimited
  unfolding compile_raw
  compile_raw-limited h = elim (Bool-cases (text_eq raw [])) [
    | inl e ↦ absurd (clash (rw (compile_raw, e) at h))
    | inr e ↦ elim (Bool-cases (ltb max_path_length (byte_length raw))) [
      | inl long ↦ absurd (clash (rw (compile_raw, e, long) at h))
      | inr short ↦
          within_depth-limited
            (compile_loop (max_depth + 1) (trim_prefix b'.' (trim_prefix b'$' raw))) (fits short)
            (rw (compile_raw, e, short) at h)
    ]
  ]
    where
      clash : {e : PathError} → inl e ≡ inr p → ⊥
      clash k = cc

      fits : ltb max_path_length (byte_length raw) ≡ false → byte_length raw ≤ max_path_length
      fits k = ground arith

-- An accepted path is the trimmed expression, of at most 256 bytes, with at most 10 steps.
pub compile-IsLimited :
    (expr : Text) (p : CompiledPath) → compile expr ≡ inr p → IsLimited (trim_space expr) p
unfolding compile
compile-IsLimited expr p h = compile_raw-limited (trim_space expr) p h
