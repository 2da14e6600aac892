-- ===== src/Rpc/Value/Nulls.antt =====
-- What is left after `removeNulls`.
use rexharge_citrineos_core.Prelude.{◌≡◌, refl, ap, ap₂}
use rexharge_citrineos_core.Rpc.Value.{
  Value, null, undefined, bool, num, text, arr, obj, Items, nil, cons, Fields, end, field,
  remove_nulls, remove_null_items, remove_null_fields,
}

-- No null is written for the value, at any depth: JSON.stringify writes an undefined item of an array as
-- null, and leaves an undefined field out.
unfoldable mutual
  pub LacksNull : Value → Type 0
  LacksNull null = ⊥
  LacksNull undefined = Unit
  LacksNull (bool b) = Unit
  LacksNull (num n) = Unit
  LacksNull (text s) = Unit
  LacksNull (arr xs) = LacksNullItems xs
  LacksNull (obj fs) = LacksNullFields fs

  pub LacksNullItems : Items → Type 0
  LacksNullItems nil = Unit
  LacksNullItems (cons undefined xs) = ⊥
  LacksNullItems (cons x xs) = LacksNull x × LacksNullItems xs

  pub LacksNullFields : Fields → Type 0
  LacksNullFields end = Unit
  LacksNullFields (field k v fs) = LacksNull v × LacksNullFields fs

-- No array in the value has an undefined item.
unfoldable mutual
  pub IsDense : Value → Type 0
  IsDense (arr xs) = IsDenseItems xs
  IsDense (obj fs) = IsDenseFields fs
  IsDense v = Unit

  pub IsDenseItems : Items → Type 0
  IsDenseItems nil = Unit
  IsDenseItems (cons undefined xs) = ⊥
  IsDenseItems (cons x xs) = IsDense x × IsDenseItems xs

  pub IsDenseFields : Fields → Type 0
  IsDenseFields end = Unit
  IsDenseFields (field k v fs) = IsDense v × IsDenseFields fs

mutual
  unfolding remove_nulls LacksNull IsDense

  clean : (v : Value) → IsDense v → LacksNull (remove_nulls v)
  clean null h = tt
  clean undefined h = tt
  clean (bool b) h = tt
  clean (num n) h = tt
  clean (text s) h = tt
  clean (arr xs) h = clean_items xs h
  clean (obj fs) h = clean_fields fs h

  clean_items : (xs : Items) → IsDenseItems xs → LacksNullItems (remove_null_items xs)
  clean_items nil h = tt
  clean_items (cons null xs) (d, h) = clean_items xs h
  clean_items (cons undefined xs) h = elim h [ ]
  clean_items (cons (bool b) xs) (d, h) = (tt, clean_items xs h)
  clean_items (cons (num n) xs) (d, h) = (tt, clean_items xs h)
  clean_items (cons (text s) xs) (d, h) = (tt, clean_items xs h)
  clean_items (cons (arr ys) xs) (d, h) = (clean_items ys d, clean_items xs h)
  clean_items (cons (obj fs) xs) (d, h) = (clean_fields fs d, clean_items xs h)

  clean_fields : (fs : Fields) → IsDenseFields fs → LacksNullFields (remove_null_fields fs)
  clean_fields end h = tt
  clean_fields (field k v fs) (d, h) = (clean v d, clean_fields fs h)

mutual
  unfolding remove_nulls LacksNull

  kept : (v : Value) → LacksNull v → remove_nulls v ≡ v
  kept null h = elim h [ ]
  kept undefined h = refl
  kept (bool b) h = refl
  kept (num n) h = refl
  kept (text s) h = refl
  kept (arr xs) h = ap arr (kept_items xs h)
  kept (obj fs) h = ap obj (kept_fields fs h)

  kept_items : (xs : Items) → LacksNullItems xs → remove_null_items xs ≡ xs
  kept_items nil h = refl
  kept_items (cons null xs) (p, h) = elim p [ ]
  kept_items (cons undefined xs) h = elim h [ ]
  kept_items (cons (bool b) xs) (p, h) = ap (cons (bool b)) (kept_items xs h)
  kept_items (cons (num n) xs) (p, h) = ap (cons (num n)) (kept_items xs h)
  kept_items (cons (text s) xs) (p, h) = ap (cons (text s)) (kept_items xs h)
  kept_items (cons (arr ys) xs) (p, h) =
      ap₂ (λ y z. cons (arr y) z) (kept_items ys p) (kept_items xs h)
  kept_items (cons (obj fs) xs) (p, h) =
      ap₂ (λ y z. cons (obj y) z) (kept_fields fs p) (kept_items xs h)

  kept_fields : (fs : Fields) → LacksNullFields fs → remove_null_fields fs ≡ fs
  kept_fields end h = refl
  kept_fields (field k v fs) (p, h) = ap₂ (field k) (kept v p) (kept_fields fs h)

-- Of a value whose arrays hold nothing undefined, what `removeNulls` leaves is written without a null at
-- any depth, and removing the nulls a second time changes nothing.
pub remove_nulls_lem :
    (v : Value)
    → IsDense v
    → LacksNull (remove_nulls v) × (remove_nulls (remove_nulls v) ≡ remove_nulls v)
remove_nulls_lem v h = (clean v h, kept (remove_nulls v) (clean v h))
