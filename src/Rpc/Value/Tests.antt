-- ===== src/Rpc/Value/Tests.antt =====
-- Nulls in one value.
use rexharge_citrineos_core.Prelude.{◌≡◌}
use rexharge_citrineos_core.Rpc.Value.{
  Value, undefined, null, num, arr, obj, nil, cons, end, field, remove_nulls,
}
use rexharge_citrineos_core.Rpc.Value.Nulls.{LacksNull, IsDense, remove_nulls_lem}

abbrev nested : Value
nested = arr (cons null (cons (num 2) (cons (obj (field "a" null (field "b" (num 1) end))) nil)))

remove_nulls_lem_example :
    LacksNull (remove_nulls nested) × (remove_nulls (remove_nulls nested) ≡ remove_nulls nested)
unfolding IsDense
remove_nulls_lem_example = remove_nulls_lem nested (tt, (tt, ((tt, (tt, tt)), tt)))

-- A frame without an identifier, which is answered with one that is undefined.
abbrev unidentified : Value
unidentified = arr (cons (num 4) (cons undefined nil))

written_null : ¬ LacksNull (remove_nulls unidentified)
unfolding remove_nulls LacksNull
written_null h = elim h.1 [ ]
