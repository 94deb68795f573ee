-- ===== src/Store/Geo.antt =====
-- `GeoAdd`, `GeoExists`, `GeoDist` and `GeoSearch` of app/store.go, with the codes of places. The float64
-- operations are a parameter.
pub mod Digits
pub mod Codes
use Prim.Native.Nat.{bit_and, bit_or}
use redis_go.Base.{
  ℕ, ◌+◌, ◌*◌, ◌/◌, ◌%◌, ◌^◌, Bool, not, ◌&&◌, ◌||◌, List, [], ◌∷◌, ◌++◌, map, Option, none, some,
  leb, if◌then◌else◌, Bytes, codes,
}
use redis_go.Base.Dict.{Dict, get, get_or}
use redis_go.Base.Floats.{Floats}
use redis_go.Store.{
  Store, Zset, zset, Result, ok, err, wrong_type, Outcome, done, panic, ◌>>=◌, expired, is_kind,
}
use redis_go.Store.Zsets.{is_nan, float_rank, float_lt, zadd}

-- `v << k` on a uint64.
abbrev pub shl : ℕ → ℕ → ℕ
shl v k = v * 2 ^ k % 2 ^ 64

-- `(r | (r << k)) & mask`, and with `>>`.
unfoldable pub spread_step : ℕ → ℕ → ℕ → ℕ
spread_step k mask r = bit_and (bit_or r (shl r k)) mask

unfoldable pub compact_step : ℕ → ℕ → ℕ → ℕ
compact_step k mask r = bit_and (bit_or r (r / 2 ^ k)) mask

unfoldable pub spread : ℕ → ℕ
unfolding spread_step
spread v = spread_step 1 0x5555555555555555 (
    spread_step 2 0x3333333333333333 (
      spread_step 4 0x0F0F0F0F0F0F0F0F
        (spread_step 8 0x00FF00FF00FF00FF (spread_step 16 0x0000FFFF0000FFFF v))))

unfoldable pub interleave : ℕ → ℕ → ℕ
unfolding spread
interleave x y = bit_or (spread x) (shl (spread y) 1)

unfoldable pub compact : ℕ → ℕ
unfolding compact_step
compact v = compact_step 16 0x00000000FFFFFFFF (
    compact_step 8 0x0000FFFF0000FFFF (
      compact_step 4 0x00FF00FF00FF00FF (
        compact_step 2 0x0F0F0F0F0F0F0F0F
          (compact_step 1 0x3333333333333333 (bit_and v 0x5555555555555555)))))

unfoldable pub float_le : ℕ → ℕ → Bool
float_le x y = not (is_nan x) && not (is_nan y) && leb (float_rank x) (float_rank y)

pub record Coordinates : Type 0 where
  pub latitude : ℕ
  pub longitude : ℕ

-- The result of `GeoAdd`: the text for a pair that is out of range, or what `ZAdd` returned.
pub data Added : Type 0 where
  refused : Bytes → Added
  added : Result ℕ → Added

module _ (floats : Floats) where
  open floats use {
    parse, format, format_six, add, sub, mul, div, sqrt, sin, cos, asin, of_uint, to_uint32,
    to_uint64,
  }

  -- A constant of the source, rounded to the nearest float64.
  abbrev pub literal : Bytes → ℕ
  literal text = (parse text).0

  abbrev pub min_latitude : ℕ
  min_latitude = literal (codes "-85.05112878")

  abbrev pub max_latitude : ℕ
  max_latitude = literal (codes "85.05112878")

  abbrev pub latitude_range : ℕ
  latitude_range = literal (codes "170.10225756")

  abbrev pub min_longitude : ℕ
  min_longitude = literal (codes "-180")

  abbrev pub max_longitude : ℕ
  max_longitude = literal (codes "180")

  abbrev pub longitude_range : ℕ
  longitude_range = literal (codes "360")

  -- `math.Pow(2, 26)`
  abbrev pub grid : ℕ
  grid = of_uint (2 ^ 26)

  unfoldable pub encode : ℕ → ℕ → ℕ
  unfolding interleave
  encode latitude longitude =
      interleave (to_uint32 (div (mul grid (sub latitude min_latitude)) latitude_range))
        (to_uint32 (div (mul grid (sub longitude min_longitude)) longitude_range))

  -- The middle of a cell of the grid along one axis. `n + 1` wraps around on a uint32.
  unfoldable pub middle : ℕ → ℕ → ℕ → ℕ
  middle low range n =
      div
        (add (add low (mul range (div (of_uint n) grid)))
          (add low (mul range (div (of_uint ((n + 1) % 2 ^ 32)) grid))))
        (of_uint 2)

  unfoldable pub convert_grid_numbers_to_coordinates : ℕ → ℕ → Coordinates
  unfolding middle
  convert_grid_numbers_to_coordinates lat lon = record {
    latitude = middle min_latitude latitude_range lat;
    longitude = middle min_longitude longitude_range lon;
  }

  unfoldable pub decode : ℕ → Coordinates
  unfolding compact convert_grid_numbers_to_coordinates
  decode geo_code = convert_grid_numbers_to_coordinates (compact geo_code) (compact (geo_code / 2))

  abbrev pub deg_to_rad : ℕ
  deg_to_rad = literal (codes "0.01745329251994329576923690768488612713")

  abbrev pub pi : ℕ
  pi = literal (codes "3.14159265358979323846264338327950288420")

  -- `2 * earthRadiusMeters`, which the compiler computes.
  abbrev pub earth_diameter : ℕ
  earth_diameter = literal (codes "12745595.121712")

  unfoldable pub geohash_get_distance : ℕ → ℕ → ℕ → ℕ → ℕ
  geohash_get_distance lon1 lat1 lon2 lat2 =
      let lat1r = mul lat1 deg_to_rad in
      let lat2r = mul lat2 deg_to_rad in
      let u = sin (div (sub lat2r lat1r) (of_uint 2)) in
      let v = sin (div (sub (mul lon2 deg_to_rad) (mul lon1 deg_to_rad)) (of_uint 2)) in
      mul earth_diameter (asin (sqrt (add (mul u u) (mul (mul (mul (cos lat1r) (cos lat2r)) v) v))))

  unfoldable pub to_rad : ℕ → ℕ
  to_rad d = div (mul d pi) (of_uint 180)

  unfoldable pub haversine : ℕ → ℕ → ℕ → ℕ → ℕ
  unfolding to_rad
  haversine lon1 lat1 lon2 lat2 =
      let d_lat = to_rad (sub lat2 lat1) in
      let d_lon = to_rad (sub lon2 lon1) in
      let half_lat = sin (div d_lat (of_uint 2)) in
      let half_lon = sin (div d_lon (of_uint 2)) in
      mul earth_diameter (
        asin (
          sqrt (
            add (mul half_lat half_lat)
              (mul (mul (mul (cos (to_rad lat1)) (cos (to_rad lat2))) half_lon) half_lon))))

  unfoldable pub out_of_range : ℕ → ℕ → Bool
  unfolding float_lt
  out_of_range long lat =
      float_lt long min_longitude
      || (float_lt max_longitude long || (float_lt lat min_latitude || float_lt max_latitude lat))

  unfoldable pub geo_add : Bytes → ℕ → ℕ → Bytes → Store → Outcome (Added × Store)
  unfolding out_of_range encode
  geo_add key long lat member s =
      if out_of_range long lat
      then done (
        refused (
            codes "ERR invalid longitude,latitude pair "
            ++ (format_six long ++ (codes "," ++ format_six lat))),
        s,
      )
      else (do (r, s') ← zadd key (of_uint (encode lat long)) member s; done (added r, s'))

  -- The place of each member, longitude first.
  unfoldable pub places_of : List Bytes → Zset → List (Option (Bytes × Bytes))
  unfolding decode
  places_of [] z = []
  places_of (m ∷ members) z =
      (elim (get z.scores m) [
        | none ↦ none
        | some score ↦
            let place = decode (to_uint64 score) in
            some (format place.longitude, format place.latitude)
      ])
      ∷ places_of members z

  unfoldable pub geo_exists :
      Bytes → List Bytes → ℕ → Store → Outcome (Result (List (Option (Bytes × Bytes))))
  unfolding expired places_of
  geo_exists key members now s = elim (get s.entries key) [
    | none ↦ done (ok (map (λ (m : Bytes). none) members))
    | some e ↦
        if expired now e
        then done (ok (map (λ (m : Bytes). none) members))
        else if not (is_kind e.kind zset)
        then done (err wrong_type)
        else elim e.zset [ none ↦ panic | some z ↦ done (ok (places_of members z)) ]
  ]

  -- The sorted set of a key, whose nil pointer is a panic.
  unfoldable pub zset_at : Bytes → Store → Outcome Zset
  zset_at key s = elim (get s.entries key) [
    | none ↦ panic
    | some e ↦ elim e.zset [ none ↦ panic | some z ↦ done z ]
  ]

  unfoldable pub geo_dist : Bytes → Bytes → Bytes → Store → Outcome Bytes
  unfolding decode geohash_get_distance zset_at
  geo_dist key member1 member2 s = do
    z ← zset_at key s
    let place1 = decode (to_uint64 (get_or z.scores member1 0))
    let place2 = decode (to_uint64 (get_or z.scores member2 0))
    done (
        format
          (geohash_get_distance place1.longitude place1.latitude place2.longitude place2.latitude))

  unfoldable pub within : ℕ → ℕ → ℕ → Dict ℕ → List Bytes
  unfolding decode haversine float_le
  within longitude latitude radius [] = []
  within longitude latitude radius ((member, score) ∷ scores) =
      let rest = within longitude latitude radius scores in
      let place = decode (to_uint64 score) in
      if float_le (haversine longitude latitude place.longitude place.latitude) radius
      then member ∷ rest
      else rest

  unfoldable pub geo_search : Bytes → ℕ → ℕ → ℕ → Store → Outcome (List Bytes)
  unfolding zset_at within
  geo_search key longitude latitude radius s = do
    z ← zset_at key s
    done (within longitude latitude radius z.scores)
