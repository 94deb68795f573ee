-- ===== src/Tests/Places.antt =====
-- The code of a place on a concrete cell.
use redis_go.Base.{◌≡◌, arith, ◌/◌}
use redis_go.Store.Geo.{interleave, compact}
use redis_go.Store.Geo.Codes.{compact-interleave}

compact-interleave_example :
    (compact (interleave 43690001 67108863) ≡ 43690001)
    × (compact (interleave 43690001 67108863 / 2) ≡ 67108863)
compact-interleave_example = compact-interleave 43690001 67108863 (omega arith) (omega arith)
