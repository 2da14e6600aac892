-- ===== src/Rpc/Value.antt =====
-- Payloads: the values that JSON.parse gives and JSON.stringify takes, and `removeNulls`
-- (03_Modules/OcppRouter/src/module/router.ts).
pub mod Nulls
mod Tests
use rexharge_citrineos_core.Prelude.{ℕ, String, Bool}

mutual
  pub data Value : Type 0 where
    undefined null : Value
    obj : Fields → Value
    arr : Items → Value
    text : String → Value
    num : ℕ → Value
    bool : Bool → Value

  pub data Fields : Type 0 where
    field : String → Value → Fields → Fields
    end : Fields

  pub data Items : Type 0 where
    cons : Value → Items → Items
    nil : Items

-- An item of an array that is null is left out; a field that is null becomes undefined, which
-- JSON.stringify leaves out.
unfoldable mutual
  pub remove_nulls : Value → Value
  remove_nulls null = undefined
  remove_nulls undefined = undefined
  remove_nulls (bool b) = bool b
  remove_nulls (num n) = num n
  remove_nulls (text s) = text s
  remove_nulls (arr xs) = arr (remove_null_items xs)
  remove_nulls (obj fs) = obj (remove_null_fields fs)

  pub remove_null_items : Items → Items
  remove_null_items nil = nil
  remove_null_items (cons null xs) = remove_null_items xs
  remove_null_items (cons undefined xs) = cons undefined (remove_null_items xs)
  remove_null_items (cons (bool b) xs) = cons (bool b) (remove_null_items xs)
  remove_null_items (cons (num n) xs) = cons (num n) (remove_null_items xs)
  remove_null_items (cons (text s) xs) = cons (text s) (remove_null_items xs)
  remove_null_items (cons (arr ys) xs) = cons (arr (remove_null_items ys)) (remove_null_items xs)
  remove_null_items (cons (obj fs) xs) = cons (obj (remove_null_fields fs)) (remove_null_items xs)

  pub remove_null_fields : Fields → Fields
  remove_null_fields end = end
  remove_null_fields (field k v fs) = field k (remove_nulls v) (remove_null_fields fs)
