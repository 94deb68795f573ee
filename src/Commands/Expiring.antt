-- ===== src/Commands/Expiring.antt =====
-- SET with PX and GET, through `handleCommands`.
use redis_go.Base.{
  ℕ, ◌+◌, ◌*◌, ◌^◌, ◌<◌, ◌≡◌, refl, ◌∙◌, [], ◌∷◌, some, arith, ltb, Bytes, codes, bytes_eq,
  bytes_eq_refl, if◌then◌else◌,
}
use redis_go.Base.Int.{pos}
use redis_go.Decimal.{parse_int}
use redis_go.Resp.Write.{bulk}
use redis_go.Store.{Store, done}
use redis_go.Store.Strings as store
use redis_go.Store.Strings.Laws.{get_value-set}
use redis_go.Commands.{World, Env, handle_commands}
use redis_go.Commands.Cases.{handle_commands-set, handle_commands-get}
use redis_go.Commands.Progress.{replied}
use redis_go.Commands.Reply.{null_bulk, to_upper}
use redis_go.Commands.Strings.{set, set_expiring, get, instant_after}

instant_after_fits : (t ms : ℕ) → ms * 10 ^ 6 < 2 ^ 63 → instant_after t ms ≡ t + ms * 10 ^ 6
unfolding instant_after
instant_after_fits t ms h = ground arith

set_expiring_number :
    (key value ms : Bytes) (p t : ℕ) (s : Store)
    → parse_int ms ≡ some (pos p)
    → set_expiring key value ms t s
      ≡ done (codes "+OK\r\n", store.set key value (instant_after t p) s)
unfolding set_expiring
set_expiring_number key value ms p t s number = ground (arith, number)

set_px :
    (key value px ms : Bytes) (p t : ℕ) (s : Store)
    → to_upper px ≡ codes "PX"
    → parse_int ms ≡ some (pos p)
    → set (key ∷ value ∷ px ∷ ms ∷ []) t s
      ≡ done (codes "+OK\r\n", store.set key value (instant_after t p) s)
unfolding set bytes_eq
set_px key value px ms p t s is_px number = rw is_px (set_expiring_number key value ms p t s number)

get-set :
    (key value : Bytes) (t now : ℕ) (s : Store)
    → 0 < t
    → get (key ∷ []) now (store.set key value t s)
      ≡ done (if ltb t now then null_bulk else bulk value, store.set key value t s)
unfolding get
get-set key value t now s h = ground (arith, get_value-set key key value t now s, bytes_eq_refl key)

-- SET with PX at a time `t` behind the zero time, and GET of the key at the time `now`, under any spelling: the value is
-- there up to so many milliseconds after `t`, and then it is not. The milliseconds are a number that, in
-- nanoseconds, an int64 holds.
pub handle_commands-expires :
    (env : Env) (set_word px get_word key value ms : Bytes) (p t now : ℕ) (w : World)
    → to_upper set_word ≡ codes "SET"
    → to_upper px ≡ codes "PX"
    → to_upper get_word ≡ codes "GET"
    → parse_int ms ≡ some (pos p)
    → p * 10 ^ 6 < 2 ^ 63
    → 0 < t
    → (w' : World) × (handle_commands env (set_word ∷ key ∷ value ∷ px ∷ ms ∷ []) t w
        ≡ done (replied (codes "+OK\r\n") w'))
      × (handle_commands env (get_word ∷ key ∷ []) now w'
          ≡ done (replied (if ltb (t + p * 10 ^ 6) now then null_bulk else bulk value) w'))
handle_commands-expires env set_word px get_word key value ms p t now w is_set is_px is_get number
      fits later =
    let s' = store.set key value (instant_after t p) w.store in
    let w' : World = record w { store = s' } in
    (
      w',
      handle_commands-set env set_word (key ∷ value ∷ px ∷ ms ∷ []) t w is_set
          ∙ rw (set_px key value px ms p t w.store is_px number) refl,
      handle_commands-get env get_word (key ∷ []) now w' is_get
          ∙ rw (instant_after_fits t p fits)
              (rw (get-set key value (t + p * 10 ^ 6) now w.store (omega arith)) refl),
    )
