-- ===== src/Authenticator/Duplicates.antt =====
-- The filter of connected stations and the entries of connections.
use rexharge_citrineos_core.Prelude.{
  ℕ, ◌≤◌, String, ◌≡◌, ◌≢◌, refl, ap, some, false, arith, eq_iff, Bool-cases, inl, inr, str_eq,
}
use rexharge_citrineos_core.Prelude.Text.{colon_join, Lacks}
use rexharge_citrineos_core.Prelude.Colons.{colons, colons-colon_join, colons-Lacks}
use rexharge_citrineos_core.Prelude.Decimal.{print}
use rexharge_citrineos_core.Identifier.{create_identifier}
use rexharge_citrineos_core.Cache.Store.{Store, full_key, get_text, set}
use rexharge_citrineos_core.Authenticator.{connected_station_filter, register_client}

two_colons :
    (tenant : ℕ) (name : String)
    → 2 ≤ colons (full_key (create_identifier tenant name) (some "conn"))
unfolding create_identifier
two_colons tenant name = ground (
  arith,
  colons-colon_join "conn" (colon_join (print tenant) name),
  colons-colon_join (print tenant) name,
)

one_colon : (station : String) → Lacks b':' station → colons (full_key station (some "conn")) ≡ 1
unfolding colons
one_colon station away = ground (arith, colons-colon_join "conn" station, colons-Lacks station away)

keys_differ :
    (tenant : ℕ) (name station : String)
    → Lacks b':' station
    → str_eq
        (full_key (create_identifier tenant name) (some "conn"))
        (full_key station (some "conn"))
      ≡ false
keys_differ tenant name station away =
    elim (Bool-cases (
      str_eq (full_key (create_identifier tenant name) (some "conn"))
        (full_key station (some "conn")))) [
          | inl same ↦ absurd (
              clash (
                ap colons (
                  (eq_iff (full_key (create_identifier tenant name) (some "conn"))
                      (full_key station (some "conn"))).0
                    same)))
          | inr differs ↦ differs
        ]
  where
    clash :
        colons (full_key (create_identifier tenant name) (some "conn"))
        ≢ colons (full_key station (some "conn"))
    clash e = omega (arith, two_colons tenant name, one_colon station away, e)

-- Registering a client changes nothing for the filter of connected stations: where the name holds no
-- colon, a station passes it exactly if it passed before, whether or not it has just been connected.
connected_station_filter-register_client :
    (tenant : ℕ) (name connection station : String) (cache : Store)
    → Lacks b':' station
    → connected_station_filter station (register_client tenant name connection cache)
      ≡ connected_station_filter station cache
unfolding connected_station_filter register_client get_text set
connected_station_filter-register_client tenant name connection station cache away =
    rw (keys_differ tenant name station away) refl
