-- ===== src/Commands/Geo.antt =====
-- The cases GEOADD, GEOPOS, GEODIST and GEOSEARCH of app/handleCommands.go.
use redis_go.Base.{
  ℕ, ◌&&◌, List, [], ◌∷◌, ◌++◌, Option, none, some, if◌then◌else◌, Bytes, codes, bytes_eq, length,
}
use redis_go.Base.Floats.{Floats}
use redis_go.Resp.Write.{array_header, bulk, bulks_onto}
use redis_go.Store.{Store, ok, err, Outcome, done, ◌>>=◌}
use redis_go.Store.Geo.{refused, added, geo_add, geo_exists, geo_dist, geo_search}
use redis_go.Commands.Reply.{error_text, error_line}
use redis_go.Commands.Zsets.{added_reply}

-- One entry for each member, a null array for one that is missing.
unfoldable pub places_onto : Bytes → List (Option (Bytes × Bytes)) → Bytes
places_onto b [] = b
places_onto b (none ∷ places) = places_onto (b ++ codes "*-1\r\n") places
places_onto b (some (long, lat) ∷ places) =
    places_onto (b ++ (codes "*2\r\n" ++ (bulk long ++ bulk lat))) places

module _ (floats : Floats) where
  open floats use {parse}

  unfoldable pub geoadd : List Bytes → Store → Outcome (Bytes × Store)
  unfolding added_reply error_line
  geoadd (key ∷ long ∷ lat ∷ member ∷ _) s = do
    (r, s') ← geo_add floats key (parse long).0 (parse lat).0 member s
    done (elim r [ refused text ↦ error_line text | added n ↦ added_reply [] n ], s')
  geoadd _ s = done (codes "-ERR invalid number of arguments for 'geoadd'\r\n", s)

  unfoldable pub geopos : List Bytes → ℕ → Store → Outcome (Bytes × Store)
  unfolding places_onto error_line error_text
  geopos (key ∷ m ∷ members) now s = do
    r ← geo_exists floats key (m ∷ members) now s
    done (
      elim r [
        | err e ↦ error_line (error_text e)
        | ok places ↦ places_onto (array_header (length (m ∷ members))) places
      ],
      s,
    )
  geopos _ now s = done (codes "-ERR wrong number of arguments for 'geopos' command\r\n", s)

  unfoldable pub geodist : List Bytes → Store → Outcome (Bytes × Store)
  geodist (key ∷ member1 ∷ member2 ∷ _) s = do
    dist ← geo_dist floats key member1 member2 s
    done (bulk dist, s)
  geodist _ s = done (codes "-ERR wrong number of arguments for 'geopos' command\r\n", s)

  -- The centre and the radius count where their words stand before them, and are 0 else.
  unfoldable pub geosearch : List Bytes → Store → Outcome (Bytes × Store)
  geosearch (key ∷ from ∷ long ∷ lat ∷ by ∷ radius ∷ unit ∷ _) s =
      let zero : ℕ = 0 in
      let centred = bytes_eq from (codes "FROMLONLAT") in
      let x = (if centred then (parse long).0 else zero) in
      let y = (if centred then (parse lat).0 else zero) in
      let r = (if centred && bytes_eq by (codes "BYRADIUS") then (parse radius).0 else zero) in
      (do
        found ← geo_search floats key x y r s
        done (bulks_onto (array_header (length found)) found, s))
  geosearch _ s = done (codes "-ERR wrong number of arguments for 'geopos' command\r\n", s)
