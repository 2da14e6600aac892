-- ===== src/Identifier/Parts.antt =====
-- What an identifier gives back of the tenant and the station that it was made of.
use Prim.Native.String.{◌∷◌}
use text.Mathlib.TextLemmas.{nil-append, cons-append, append_cancel_left}
use rexharge_citrineos_core.Prelude.{ℕ, String, ◌≡◌, refl, sym, ap, ◌∙◌, some, List, arith, eq_iff}
use rexharge_citrineos_core.Prelude.Text.{
  concat, colon_join, split, split-append, split-Lacks, Lacks,
}
use rexharge_citrineos_core.Prelude.Decimal.{print, parse-print, Lacks-print, print-ne-nil}
use rexharge_citrineos_core.Identifier.{
  create_identifier, tenant_of, get_tenant_id, station_of, get_station_id,
}

colon_join-cons : (s t : String) → colon_join s t ≡ concat s (":" ∷ t)
colon_join-cons s t = ap (concat s) (cons-append ":" "" t ∙ ap (λ u. ":" ∷ u) (nil-append t))

split-create_identifier :
    (tenant : ℕ) (station : String)
    → split b':' (create_identifier tenant station) ≡ List.◌∷◌ (print tenant) (split b':' station)
unfolding create_identifier
split-create_identifier tenant station =
    ap (split b':') (colon_join-cons (print tenant) station)
    ∙ split-append b':' (print tenant) station ":" (Lacks-print tenant) refl

tenant_of-print : (n : ℕ) (parts : List String) → tenant_of (List.◌∷◌ (print n) parts) ≡ some n
unfolding tenant_of
tenant_of-print n parts = ground (arith, eq_iff (print n) "", parse-print n, print-ne-nil n)

-- Whatever the station's name, the tenant's number comes back from the identifier.
pub get_tenant_id-create_identifier :
    (tenant : ℕ) (station : String) → get_tenant_id (create_identifier tenant station) ≡ some tenant
unfolding get_tenant_id
get_tenant_id-create_identifier tenant station =
    ap tenant_of (split-create_identifier tenant station)
    ∙ tenant_of-print tenant (split b':' station)

-- A station's name that holds no colon comes back from the identifier.
pub get_station_id-create_identifier :
    (tenant : ℕ) (station : String)
    → Lacks b':' station
    → get_station_id (create_identifier tenant station) ≡ station
unfolding get_station_id
get_station_id-create_identifier tenant station h =
    ap (station_of (create_identifier tenant station)) (
      split-create_identifier tenant station
      ∙ ap (List.◌∷◌ (print tenant)) (split-Lacks b':' station h))

-- Two connections have one identifier only if tenant and station are the same.
create_identifier-injective :
    (tenant tenant' : ℕ) (station station' : String)
    → create_identifier tenant station ≡ create_identifier tenant' station'
    → (tenant ≡ tenant') × (station ≡ station')
create_identifier-injective tenant tenant' station station' e = (same, same_station)
  where
    same : tenant ≡ tenant'
    same = cc (
      get_tenant_id-create_identifier tenant station,
      get_tenant_id-create_identifier tenant' station',
      ap get_tenant_id e,
    )

    same_text : colon_join (print tenant) station ≡ colon_join (print tenant) station'
    same_text = unfold create_identifier in (e ∙ ap (λ n. colon_join (print n) station') (sym same))

    same_station : station ≡ station'
    same_station = append_cancel_left ":" _ _ (append_cancel_left (print tenant) _ _ same_text)
